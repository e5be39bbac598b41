-- ===== src/Examples/Locks.antt =====
-- The locks at concrete inputs.
use clight.Prelude.{ℕ, ◌≡◌, refl, true, false, none, some, List, [], ◌∷◌, arith, ◌+ℤ◌, ◌-ℤ◌, pos}
use clight.Modules.Inhibit.Refinement.{Counts}
use clight.Modules.Interface.{publish_inhibition, create_inhibit, unlisten, drop_inhibit}
use clight.Modules.Interface.Conserved.{AllHeld, LockCall, create, drop}
use clight.Modules.Interface.Runs.{calls_run, AllOwn, calls_run-Counts}
use clight.Modules.Interface.Foreign.{drop-create-unasked, IsForeign}
use clight.Examples.Data.{state}
use clight.Examples.LockList.{Locks, lock_list, lock_list_laws}

-- Clight's own name is 9. Two clients take locks, the first of them twice; the second drops its own, and
-- the first is lost from the bus.
abbrev calls : List (ℕ × LockCall)
calls =
    (0, create (pos 17) true (pos 0))
    ∷ (1, create (pos 18) true (pos 0))
    ∷ (0, create (pos 19) true (pos 0))
    ∷ (1, drop none false)
    ∷ (0, drop none true)
    ∷ []

calls-AllOwn : AllOwn lock_list 9 calls [] (pos 0) state
unfolding create_inhibit drop_inhibit ◌+ℤ◌ ◌-ℤ◌
calls-AllOwn = (tt, (tt, (tt, ((refl, (_, refl)), ((refl, (_, refl)), tt)))))

no_locks : AllHeld lock_list []
no_locks k l e = absurd (ground arith)

none_held : Counts 0 (pos 0) state
none_held = record { counted = refl; flagged = refl }

calls_run-Counts_example :
    let (m', ctr', s') = calls_run lock_list 9 calls [] (pos 0) state in
    Counts (lock_list.map_length m') ctr' s'
calls_run-Counts_example =
    calls_run-Counts lock_list 9 lock_list_laws calls [] (pos 0) state calls-AllOwn no_locks
      none_held

-- The lock of 0 is dropped by 1.
abbrev one_lock : Locks
one_lock = some (record { cookie = pos 17; refs = pos 1 }) ∷ []

one_lock-IsForeign : IsForeign lock_list lock_list_laws 9 state 1 0 (pos 17) one_lock
one_lock-IsForeign = record { without = refl; holds = refl; found = refl; others = refl }

drop-create-unasked_example :
    let (m1, ok, es1) = drop_inhibit lock_list 9 (some (pos 17)) 1 false state one_lock in
    let (m2, r, es2) = create_inhibit lock_list 9 (pos 5) true (pos 0) 0 state m1 in
    (ok ≡ true)
    × (es1 ≡ publish_inhibition lock_list 9 false false state ∷ unlisten lock_list 9 m1)
    × (r ≡ some (pos 17))
    × (es2 ≡ [])
    × (lock_list.map_get 0 m2 ≡ some (record { cookie = pos 17; refs = pos 1 }))
drop-create-unasked_example =
    drop-create-unasked lock_list lock_list_laws 9 state 1 0 (pos 17) (pos 5) (pos 0) true one_lock
      one_lock-IsForeign
