-- ===== src/Modules/Interface/Runs.antt =====
-- The locks and the module that counts the inhibitions, together.
use clight.Prelude.{ℕ, ◌≡◌, subst, false, some, List, [], ◌∷◌, map, ◌==◌, ℤ}
use clight.Public.{InhibitUpd}
use clight.Commons.{State}
use clight.Modules.Counting.{held_all}
use clight.Modules.Inhibit.Refinement.{as_request, inhibit_run, inhibit_run-Counts, Counts}
use clight.Modules.Interface.{create_inhibit, drop_inhibit, Lock, LockMap}
use clight.Modules.Interface.Laws.{MapLaws}
use clight.Modules.Interface.Conserved.{
  asked, AllHeld, create_inhibit-Conserves, drop_inhibit-Conserves, LockCall, create, drop,
}

module _ {M : Type 0} (lib : LockMap M) (clight_inh_key : ℕ) where
  -- What is dropped is the caller's own lock, and not Clight's own.
  abbrev pub IsOwn : ℕ → LockCall → M → Type 0
  IsOwn key (create random allocated cookie) m = Unit
  IsOwn key (drop cookie force) m =
      ((key == clight_inh_key) ≡ false) × ((l : Lock) × (lib.map_get key m ≡ some l))

module _ {D M : Type 0} (lib : LockMap M) (clight_inh_key : ℕ) where
  -- A call by the owner of the name `key`, and the requests that it makes, which INHIBIT handles before
  -- the next call.
  abbrev pub call_one : ℕ → LockCall → State D → M → M × List InhibitUpd
  call_one key (create random allocated cookie) s m =
      let (m', r, es) = create_inhibit lib clight_inh_key random allocated cookie key s m in
      (m', asked es)
  call_one key (drop cookie force) s m =
      let (m', r, es) = drop_inhibit lib clight_inh_key cookie key force s m in (m', asked es)

  pub calls_run : List (ℕ × LockCall) → M → ℤ → State D → M × ℤ × State D
  calls_run [] m ctr s = (m, ctr, s)
  calls_run ((key, call) ∷ calls) m ctr s =
      let (m', ups) = call_one key call s m in
      let (ctr', s', es) = inhibit_run ups ctr s in calls_run calls m' ctr' s'

  abbrev pub AllOwn : List (ℕ × LockCall) → M → ℤ → State D → Type 0
  AllOwn [] m ctr s = Unit
  AllOwn ((key, call) ∷ calls) m ctr s =
      let (m', ups) = call_one key call s m in
      let (ctr', s', es) = inhibit_run ups ctr s in
      IsOwn lib clight_inh_key key call m × AllOwn calls m' ctr' s'

  module _ (laws : MapLaws lib) where
    call_one-Conserves :
        (key : ℕ) (call : LockCall) (s : State D) (m : M)
        → IsOwn lib clight_inh_key key call m
        → AllHeld lib m
        → let (m', ups) = call_one key call s m in
          (held_all (lib.map_length m) (map as_request ups) ≡ lib.map_length m') × AllHeld lib m'
    call_one-Conserves key (create random allocated cookie) s m own h =
        create_inhibit-Conserves lib laws clight_inh_key s random cookie allocated key m h
    call_one-Conserves key (drop cookie force) s m (ne, (l, e)) h =
        drop_inhibit-Conserves lib laws clight_inh_key s cookie force key m l ne e h

    -- While every lock is dropped under its owner's name, and none under Clight's own, the counter of
    -- INHIBIT stays the number of locks, and the screen saver is inhibited exactly while there is one.
    pub calls_run-Counts :
        (calls : List (ℕ × LockCall)) (m : M) (ctr : ℤ) (s : State D)
        → AllOwn calls m ctr s
        → AllHeld lib m
        → Counts (lib.map_length m) ctr s
        → let (m', ctr', s') = calls_run calls m ctr s in Counts (lib.map_length m') ctr' s'
    unfolding calls_run
    calls_run-Counts [] m ctr s own h k = k
    calls_run-Counts ((key, call) ∷ calls) m ctr s (own, owns) h k =
        let (m', ups) = call_one key call s m in
        let (ctr', s', es) = inhibit_run ups ctr s in
        let (same, h') = call_one-Conserves key call s m own h in
        calls_run-Counts calls m' ctr' s' owns h'
          (subst (λ n. Counts n ctr' s') same (inhibit_run-Counts ups (lib.map_length m) ctr s k))
