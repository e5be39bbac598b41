-- ===== src/Modules/Interface.antt =====
-- modules/interface.c: the locks of org.freedesktop.ScreenSaver, by their owner's bus name. A name is
-- only compared, so a number stands for it; so does a lock's `app` and `reason`, which are only
-- logged, and which are left out.
pub mod Laws
pub mod Conserved
pub mod Runs
pub mod Foreign
use clight.Prelude.{
  ℕ, Bool, true, false, Option, none, some, List, [], ◌∷◌, ◌==◌, if◌then◌else◌, ◌>>=◌, ◌+ℤ◌, ◌-ℤ◌,
  minus_one, ◌==ℤ◌, ℤ, pos,
}
use clight.Public.{inhibit_req}
use clight.Commons.{State, match_signal, unmatch_signal, Effect, publish, bus}

-- `lock_t`.
pub record Lock : Type 0 where
  pub cookie : ℤ
  pub refs : ℤ

-- libmodule's map, which is not under src/, of locks by name. `find_cookie` is the loop over its
-- iterator that stops at the first lock with a cookie: it gives that lock's key.
pub record LockMap (M : Type 0) : Type 0 where
  pub map_get : ℕ → M → Option Lock
  pub map_put : ℕ → Lock → M → M
  pub map_remove : ℕ → M → M
  pub map_length : M → ℕ
  pub find_cookie : ℤ → M → Option ℕ

-- `CLIGHT_COOKIE`.
abbrev pub clight_cookie : ℤ
clight_cookie = minus_one

module _ {M : Type 0} (lib : LockMap M) where
  -- The key of the lock that is dropped, and the lock.
  abbrev pub target : Option ℤ → ℕ → M → Option (ℕ × Lock)
  target cookie key locks = elim (lib.map_get key locks) [
    | some l ↦ some (key, l)
    | none ↦ do c ← cookie; k ← lib.find_cookie c locks; l ← lib.map_get k locks; some (k, l)
  ]

module _ {D M : Type 0} (lib : LockMap M) (clight_inh_key : ℕ) where
  open lib use {map_get, map_put, map_remove, map_length}

  unfoldable pub publish_inhibition : Bool → Bool → State D → Effect D
  publish_inhibition new force s =
      publish (inhibit_req (record { old = s.inhibited; new = new; force = force }))

  -- The map, the result with the cookie, and the calls. `random` is the number that `random` gives,
  -- and `allocated` tells that `malloc` succeeded.
  unfoldable pub create_inhibit : ℤ → Bool → ℤ → ℕ → State D → M → M × Option ℤ × List (Effect D)
  unfolding publish_inhibition ◌+ℤ◌
  create_inhibit random allocated cookie key s locks =
      let fresh = if cookie ==ℤ clight_cookie then cookie else random in
      let locks' = map_put key (record { cookie = fresh; refs = pos 1 }) locks in
      let listen : List (Effect D) = if map_length locks' == 1 then bus match_signal ∷ [] else [] in
      elim (map_get key locks) [
        | some l ↦ (map_put key (record l { refs = l.refs +ℤ pos 1 }) locks, some l.cookie, [])
        | none ↦
            if allocated
            then (locks', some fresh, publish_inhibition true false s ∷ listen)
            else (locks, none, [])
      ]

  -- With no lock left, the owners are not listened to any longer.
  abbrev pub unlisten : M → List (Effect D)
  unlisten locks = if map_length locks == 0 then bus unmatch_signal ∷ [] else []

  -- The map, whether it succeeded, and the calls. What is removed is the caller's key, also where the
  -- lock was found by its cookie.
  unfoldable pub drop_inhibit : Option ℤ → ℕ → Bool → State D → M → M × Bool × List (Effect D)
  unfolding publish_inhibition ◌-ℤ◌
  drop_inhibit cookie key force s locks = elim (target lib cookie key locks) [
    | none ↦ (locks, false, [])
    | some (k, l) ↦
        let refs = if force then pos 0 else l.refs -ℤ pos 1 in
        let written = map_put k (record l { refs = refs }) locks in
        if refs ==ℤ pos 0
        then (let left = map_remove key written in
            (left, true, publish_inhibition false (key == clight_inh_key) s ∷ unlisten left))
        else (written, true, [])
  ]
