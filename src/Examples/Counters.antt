-- ===== src/Examples/Counters.antt =====
-- The counters, the reasons for a pause and the timers at concrete inputs.
use clight.Modules.Pm.Suspend
use clight.Modules.Inhibit.{on_inhibit_req}
use clight.Prelude.{
  ◌≡◌, refl, ◌↔◌, Bool, true, false, none, some, List, [], ◌∷◌, map, arith, if◌then◌else◌, eqb_bool,
  ◌-ℤ◌, ℤ, pos,
}
use clight.Public.{InhibitUpd, SuspendUpd, inhibit_upd, pm_req, suspend_upd}
use clight.Commons.{State, bl_fd, other_module, publish, settime, Input, loop_stopped, user}
use clight.Utils.Pause.{ModPause, lid, suspend}
use clight.Utils.Pause.Bits.{has}
use clight.Utils.Pause.Runs.{pause_run, last_request, has-pause_run, running_iff}
use clight.Utils.Timer.{reset_timer}
use clight.Utils.Timer.Deadline.{reset_timer-move_deadline}
use clight.Modules.Counting.{held_all}
use clight.Modules.Inhibit.Refinement.{
  as_request, on_inhibit_req-publishes, inhibit_run, inhibit_run-Counts, Counts,
}
use clight.Modules.Pm.{no_token, start_pm, on_suspend_req, receive, Replies}
use clight.Modules.Pm.Token.{receive-IsHeld, IsHeld, Good}
use clight.Modules.Pm.Lost.{pm_run, pm_req-IsLost_for_good, IsLost}
use clight.Examples.Data.{conf, state}

abbrev inhibit : Bool → Bool → InhibitUpd
inhibit new force = record { old = false; new = new; force = force }

-- Two players start, one stops, and the user forces the rest.
abbrev inhibitions : List InhibitUpd
inhibitions =
    inhibit true false ∷ inhibit true false ∷ inhibit false false ∷ inhibit true false ∷ []

none_held : Counts 0 (pos 0) state
none_held = record { counted = refl; flagged = refl }

inhibit_run-Counts_example :
    let (ctr', s', es) = inhibit_run inhibitions (pos 0) state in
    Counts (held_all 0 (map as_request inhibitions)) ctr' s'
inhibit_run-Counts_example = inhibit_run-Counts inhibitions 0 (pos 0) state none_held

on_inhibit_req-publishes_example :
    let (ctr', s', es) = on_inhibit_req (inhibit true false) (pos 0) state in
    es ≡ (
      if eqb_bool false s'.inhibited
      then []
      else publish (inhibit_upd (record { old = false; new = s'.inhibited; force = false })) ∷ [])
on_inhibit_req-publishes_example =
    on_inhibit_req-publishes (inhibit true false) 0 (pos 0) state none_held

abbrev two_held : State ℤ
two_held = record state { suspended = true }

abbrev resume : SuspendUpd
resume = record { old = true; new = false; force = true }

-- logind gives a descriptor.
abbrev granted : Replies
granted = record { systemd_reply = some 7; pm_reply = none; uninhibit_ok = true }

on_suspend_req-Counts_example :
    let (ctr', s', es) = on_suspend_req conf resume (pos 2) two_held in
    Suspend.Counts 0 ctr' s'
    × (es ≡ (if eqb_bool true s'.suspended then [] else Suspend.announced conf s'.suspended))
    × (Suspend.published_in_the_end conf granted start_pm (pos 0) state es ≡ (
        if eqb_bool true s'.suspended
        then []
        else suspend_upd (record { old = true; new = s'.suspended; force = false }) ∷ []))
on_suspend_req-Counts_example =
    Suspend.on_suspend_req-Counts conf resume 2 (pos 2) two_held granted start_pm (pos 0) state
      (record { counted = refl; flagged = refl })

abbrev ask : Input ℤ
ask = user other_module (pm_req (record { old = false; new = true }))

granted-Good : Good granted
granted-Good = record { systemd_good = (omega arith, omega arith); pm_good = tt }

start-IsHeld : IsHeld start_pm state
start-IsHeld = record { flagged = refl; known = λ e. refl }

receive-IsHeld_example :
    let (m', ctr', s', es) = receive conf granted ask start_pm (pos 0) state in IsHeld m' s'
receive-IsHeld_example =
    receive-IsHeld conf granted ask start_pm (pos 0) state granted-Good start-IsHeld

-- The descriptor cannot be copied; then the inhibition ends, and is asked for again.
abbrev uncopied : Replies
uncopied = record { systemd_reply = some no_token; pm_reply = some 3; uninhibit_ok = true }

abbrev later : List (Replies × Input ℤ)
later =
    (granted, user other_module (pm_req (record { old = true; new = false })))
    ∷ (granted, ask)
    ∷ (granted, loop_stopped)
    ∷ []

pm_req-IsLost_for_good_example :
    let (m', s') = pm_run conf ((uncopied, ask) ∷ later) start_pm (pos 0) state in IsLost m' s'
pm_req-IsLost_for_good_example =
    pm_req-IsLost_for_good conf uncopied other_module (record { old = false; new = true }) start_pm
      (pos 0) state later refl refl refl refl

abbrev pauses : List (Bool × ModPause)
pauses = (true, lid) ∷ (true, suspend) ∷ (false, lid) ∷ (true, suspend) ∷ []

has-pause_run_example : has (pause_run 32 pauses) suspend ≡ true
has-pause_run_example = has-pause_run 32 pauses suspend (omega arith)

running_iff_example :
    (pause_run 0 pauses ≡ 0) ↔ ((r : ModPause) → last_request false r pauses ≡ false)
running_iff_example = running_iff pauses

-- A timer of ten minutes with four left is to be one of seven.
reset_timer-move_deadline_example :
    reset_timer {D = ℤ} bl_fd (pos 240) (pos 600) (pos 420) ≡ settime bl_fd (pos 60) (pos 0) ∷ []
unfolding ◌-ℤ◌
reset_timer-move_deadline_example =
    reset_timer-move_deadline bl_fd (pos 240) (pos 600) (pos 420) (omega arith) (omega arith)
      (omega arith) (omega arith) (omega arith)
