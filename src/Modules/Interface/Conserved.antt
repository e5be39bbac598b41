-- ===== src/Modules/Interface/Conserved.antt =====
-- Locks that are dropped by their owners: the inhibitions asked for are those that are held.
use clight.Prelude.{
  ℕ, ◌-◌, ◌≡◌, refl, sym, inl, inr, Bool, true, false, Option, some, List, [], ◌∷◌, map, arith,
  ◌==◌, if◌then◌else◌, Bool-cases, Option-cases, ◌+ℤ◌, ◌-ℤ◌, ◌≤ℤ◌, ◌==ℤ◌, -ℤ_parts, int_laws, ℤ,
  pos,
}
use clight.Public.{InhibitUpd, inhibit_req}
use clight.Commons.{State, Effect, publish}
use clight.Modules.Counting.{held_all}
use clight.Modules.Inhibit.Refinement.{as_request}
use clight.Modules.Interface.{
  clight_cookie, publish_inhibition, create_inhibit, unlisten, drop_inhibit, Lock, LockMap,
}
use clight.Modules.Interface.Laws.{MapLaws}

-- The requests among the calls.
abbrev pub asked : {D : Type 0} → List (Effect D) → List InhibitUpd
asked [] = []
asked (publish (inhibit_req up) ∷ es) = up ∷ asked es
asked (_ ∷ es) = asked es

-- A call of the interface by the owner of a name.
pub data LockCall : Type 0 where
  create : ℤ → Bool → ℤ → LockCall
  drop : Option ℤ → Bool → LockCall

-- Every lock in the map is held.
abbrev pub AllHeld : {M : Type 0} → LockMap M → M → Type 0
AllHeld lib m = (k : ℕ) (l : Lock) → lib.map_get k m ≡ some l → pos 1 ≤ℤ l.refs

module _ {M : Type 0} (lib : LockMap M) (laws : MapLaws lib) where
  open laws use {get_put, get_remove, length_put, length_remove}

  put-AllHeld :
      (key : ℕ) (l : Lock) (m : M)
      → AllHeld lib m
      → pos 1 ≤ℤ l.refs
      → AllHeld lib (lib.map_put key l m)
  put-AllHeld key l m h p k l' e = elim (Bool-cases (key == k)) [
    | inl same ↦ ground (arith, get_put k key l m)
    | inr other ↦ h k l' (ground (arith, get_put k key l m))
  ]

  remove-AllHeld :
      (key : ℕ) (l : Lock) (m : M)
      → AllHeld lib m
      → AllHeld lib (lib.map_remove key (lib.map_put key l m))
  remove-AllHeld key l m h k l' e = elim (Bool-cases (key == k)) [
    | inl same ↦ ground (arith, get_remove k key (lib.map_put key l m))
    | inr other ↦ h k l' (ground (arith, get_remove k key (lib.map_put key l m), get_put k key l m))
  ]

  length-remove_put :
      (key : ℕ) (l : Lock) (m : M) {l0 : Lock}
      → lib.map_get key m ≡ some l0
      → lib.map_length (lib.map_remove key (lib.map_put key l m)) ≡ lib.map_length m - 1
  length-remove_put key l m e =
      ground
        (arith, length_remove key (lib.map_put key l m), get_put key key l m, length_put key l m)

module _ {D M : Type 0} (lib : LockMap M) (laws : MapLaws lib) (clight_inh_key : ℕ)
    (s : State D) where
  open laws use {length_put}

  -- The calls ask for as many inhibitions more, or fewer, as there are locks.
  abbrev pub Conserves : M → M → List (Effect D) → Type 0
  Conserves m m' es =
      (held_all (lib.map_length m) (map as_request (asked es)) ≡ lib.map_length m') × AllHeld lib m'

  abbrev fresh_lock : ℤ → ℤ → Lock
  fresh_lock random cookie = record {
    cookie = if cookie ==ℤ clight_cookie then cookie else random;
    refs = pos 1;
  }

  abbrev more_refs : Lock → Lock
  more_refs l = record l { refs = l.refs +ℤ pos 1 }

  abbrev pub less_refs : Bool → Lock → Lock
  less_refs force l = record l { refs = if force then pos 0 else l.refs -ℤ pos 1 }

  pub create_inhibit-Conserves :
      (random cookie : ℤ) (allocated : Bool) (key : ℕ) (m : M)
      → AllHeld lib m
      → let (m', r, es) = create_inhibit lib clight_inh_key random allocated cookie key s m in
        Conserves m m' es
  unfolding create_inhibit
  create_inhibit-Conserves random cookie allocated key m h =
      elim (Option-cases (lib.map_get key m)) [
        | inl e ↦ elim (Bool-cases allocated) [
          | inl a ↦
              rw (e, a, create_inhibit)
                (
                  ground (arith, length_put key (fresh_lock random cookie) m),
                  put-AllHeld lib laws key (fresh_lock random cookie) m h (omega arith),
                )
          | inr a ↦ rw (e, a, create_inhibit) (refl, h)
        ]
        | inr (l, e) ↦
            rw (e, create_inhibit)
              (
                ground (arith, length_put key (more_refs l) m),
                put-AllHeld lib laws key (more_refs l) m h (omega (int_laws, h key l e)),
              )
      ]

  drop_last :
      (cookie : Option ℤ) (force : Bool) (key : ℕ) (m : M) (l : Lock)
      → lib.map_get key m ≡ some l
      → ((less_refs force l).refs ==ℤ pos 0) ≡ true
      → drop_inhibit lib clight_inh_key cookie key force s m ≡ (
          let left = lib.map_remove key (lib.map_put key (less_refs force l) m) in
          (
            left,
            true,
            publish_inhibition lib clight_inh_key false (key == clight_inh_key) s
                ∷ unlisten lib clight_inh_key left,
          ))
  unfolding drop_inhibit
  drop_last cookie force key m l e last = rw (e, last, drop_inhibit)

  drop_not_last :
      (cookie : Option ℤ) (force : Bool) (key : ℕ) (m : M) (l : Lock)
      → lib.map_get key m ≡ some l
      → ((less_refs force l).refs ==ℤ pos 0) ≡ false
      → drop_inhibit lib clight_inh_key cookie key force s m
        ≡ (lib.map_put key (less_refs force l) m, true, [])
  unfolding drop_inhibit
  drop_not_last cookie force key m l e not_last = rw (e, not_last, drop_inhibit)

  asked-unlisten : (m : M) → asked (unlisten {D = D} lib clight_inh_key m) ≡ []
  asked-unlisten m = ground arith

  -- A drop by the owner of a lock, under another name than Clight's own.
  pub drop_inhibit-Conserves :
      (cookie : Option ℤ) (force : Bool) (key : ℕ) (m : M) (l : Lock)
      → (key == clight_inh_key) ≡ false
      → lib.map_get key m ≡ some l
      → AllHeld lib m
      → let (m', r, es) = drop_inhibit lib clight_inh_key cookie key force s m in Conserves m m' es
  unfolding publish_inhibition
  drop_inhibit-Conserves cookie force key m l ne e h =
      elim (Bool-cases ((less_refs force l).refs ==ℤ pos 0)) [
        | inl last ↦
            rw
              (
                drop_last cookie force key m l e last,
                ne,
                asked-unlisten (lib.map_remove key (lib.map_put key (less_refs force l) m)),
              )
              (
                sym (length-remove_put lib laws key (less_refs force l) m e),
                remove-AllHeld lib laws key (less_refs force l) m h,
              )
        | inr not_last ↦ rw (drop_not_last cookie force key m l e not_last) (
          ground (arith, length_put key (less_refs force l) m),
          put-AllHeld lib laws key (less_refs force l) m h
              (ground (arith, h key l e, -ℤ_parts l.refs (pos 1))),
        )
      ]
