-- ===== src/Examples/Screens.antt =====
-- The display and the lid at concrete inputs.
use clight.Prelude.{
  ◌<◌, ◌≡◌, refl, Bool, true, false, some, List, [], ◌∷◌, ◌++◌, arith, ◌==◌, if◌then◌else◌, All,
  minus_one, ◌==ℤ◌, ℤ, pos,
}
use clight.Public.{display_on, InPair, exit, DisplayUpd, upower_upd, display_upd, upower_req}
use clight.Commons.{State, other_module, dpms_set, set_idle_hint, publish, bus, loop_started, user}
use clight.Utils.MyMath.{of_int}
use clight.Modules.Display.{dimmer_publish_bl_req, on_display_req}
use clight.Modules.Display.Flags.{is_dimmed, is_off, on_display_req-flags}
use clight.Modules.Display.Restore.{display_run, NoneOn, dim-restore}
use clight.Examples.Data.{hundredths, conf, state}
use clight.Examples.Data.{hundredths}
use clight.Modules.Upower
use clight.Modules.Upower.Lid
use clight.Modules.Upower.Power

abbrev want : ℤ → DisplayUpd
want new = record { old = pos 0; new = new; no_backlight = false }

abbrev off_then : List (ℤ × DisplayUpd)
off_then = (pos 20, want (pos 2)) ∷ (pos 20, want (pos 1)) ∷ []

never_on : NoneOn conf off_then
never_on = (λ e. absurd (ground arith), (λ e. absurd (ground arith), tt))

dim-restore_example :
    let (old_pct1, s1, es1) = on_display_req conf (want (pos 1)) (pos 0) state in
    let (old_pct2, s2) = display_run conf off_then old_pct1 s1 in
    let (old_pct3, s3, es3) = on_display_req conf (want (pos 0)) old_pct2 s2 in
    (old_pct3 ≡ of_int minus_one)
    × (s3.display_state ≡ display_on)
    × (es3
        ≡ (if is_off s2.display_state then bus (dpms_set false) ∷ [] else [])
          ++ (dimmer_publish_bl_req (pos 80) exit
              ∷ publish (
                  display_upd
                    (record { old = pos s2.display_state; new = pos 0; no_backlight = false }))
              ∷ bus (set_idle_hint 0)
              ∷ []))
dim-restore_example =
    dim-restore conf (want (pos 1)) (want (pos 0)) off_then (pos 0) state refl refl refl refl refl
      never_on refl refl

abbrev dimmed_state : State ℤ
dimmed_state = record state { display_state = 1 }

-- A dimmed display is switched off.
on_display_req-flags_example :
    let next = (on_display_req conf (want (pos 2)) (pos 80) dimmed_state).1.display_state in
    (next < 4)
    × (◌≡◌ {A = Bool × Bool} (is_dimmed next, is_off next) (true, true))
    × ((next == 1) ≡ false)
unfolding is_dimmed is_off
on_display_req-flags_example =
    on_display_req-flags conf (want (pos 2)) (pos 80) dimmed_state (omega arith)

abbrev properties : Upower.Properties
properties = record { on_battery = some (pos 1); lid_is_closed = some true; docked = some true }

upower_req-announces_example :
    let (s', es) =
      Upower.receive conf true true properties
        (user other_module (upower_req (record { old = pos 0; new = pos 1 })))
        state in
    (es ≡ (
      if pos 0 ==ℤ s'.ac_state
      then []
      else publish (upower_upd (record { old = pos 0; new = s'.ac_state })) ∷ []))
    × ((pos 0 ==ℤ s'.ac_state) ≡ false)
    × (InPair (pos 0) → InPair s'.ac_state)
upower_req-announces_example =
    Power.upower_req-announces conf true true properties other_module
      (record { old = pos 0; new = pos 1 }) state

-- A docked laptop, whose lid is closed, when the loop starts.
receive-NotDocked_example :
    All Lid.NotDocked (Upower.receive conf true true properties loop_started state).1
receive-NotDocked_example = Lid.receive-NotDocked conf true true properties loop_started state
