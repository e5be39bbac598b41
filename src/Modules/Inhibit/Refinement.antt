-- ===== src/Modules/Inhibit/Refinement.antt =====
-- `inhibition_ctr` and `state.inhibited` against the specification of a counter of holders.
use clight.Prelude.{ℕ, ◌≡◌, false, List, [], ◌∷◌, ◌++◌, map, arith, if◌then◌else◌, eqb_bool, ℤ, pos}
use clight.Public.{InhibitUpd, inhibit_upd}
use clight.Commons.{State, Effect, publish}
use clight.Modules.Counting.{held, held_all, request, is_held, Request}
use clight.Modules.Inhibit.{on_inhibit_req}

-- The counter is the number of holders, and the flag tells whether there are any.
pub record Counts {D : Type 0} (n : ℕ) (ctr : ℤ) (s : State D) : Type 0 where
  pub counted : ctr ≡ pos n
  pub flagged : s.inhibited ≡ is_held n

abbrev pub as_request : InhibitUpd → Request
as_request up = request up.new up.force

pub on_inhibit_req-Counts :
    {D : Type 0} (up : InhibitUpd) (n : ℕ) (ctr : ℤ) (s : State D)
    → Counts n ctr s
    → let (ctr', s', es) = on_inhibit_req up ctr s in Counts (held n (as_request up)) ctr' s'
unfolding on_inhibit_req
on_inhibit_req-Counts up n ctr s h = ground arith

-- While the counter and the flag are right, a message goes out exactly when the flag changes, and it
-- carries the flag before and after.
pub on_inhibit_req-publishes :
    {D : Type 0} (up : InhibitUpd) (n : ℕ) (ctr : ℤ) (s : State D)
    → Counts n ctr s
    → let (ctr', s', es) = on_inhibit_req up ctr s in
      es ≡ (
        if eqb_bool s.inhibited s'.inhibited
        then []
        else publish (inhibit_upd (record { old = s.inhibited; new = s'.inhibited; force = false }))
          ∷ [])
unfolding on_inhibit_req
on_inhibit_req-publishes up n ctr s h = ground arith

-- Requests one after another.
pub inhibit_run : {D : Type 0} → List InhibitUpd → ℤ → State D → ℤ × State D × List (Effect D)
inhibit_run [] ctr s = (ctr, s, [])
inhibit_run (up ∷ ups) ctr s =
    let (ctr', s', es) = on_inhibit_req up ctr s in
    let (ctr'', s'', es') = inhibit_run ups ctr' s' in (ctr'', s'', es ++ es')

-- From a counter and a flag that are right for some number of holders, after any requests the counter
-- is the number of holders that the specification gives, and the flag tells whether there are any.
pub inhibit_run-Counts :
    {D : Type 0} (ups : List InhibitUpd) (n : ℕ) (ctr : ℤ) (s : State D)
    → Counts n ctr s
    → let (ctr', s', es) = inhibit_run ups ctr s in Counts (held_all n (map as_request ups)) ctr' s'
unfolding inhibit_run
inhibit_run-Counts [] n ctr s h = h
inhibit_run-Counts (up ∷ ups) n ctr s h =
    let (ctr', s', es) = on_inhibit_req up ctr s in
    inhibit_run-Counts ups (held n (as_request up)) ctr' s' (on_inhibit_req-Counts up n ctr s h)
