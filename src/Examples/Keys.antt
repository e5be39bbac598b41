-- ===== src/Examples/Keys.antt =====
-- The keyboard at concrete inputs.
use clight.Prelude.{refl, inl, Bool, true, false, some, List, [], ◌∷◌, arith, minus_one, ℤ, pos}
use clight.Public.{
  on_ac, TimeoutUpd, CurveUpd, BlUpd, display_upd, bl_upd, kbd_to_req, kbd_curve_req,
}
use clight.Commons.{Curve, State, other_module, Input, user, handler_list}
use clight.Modules.Keyboard.{receive, KbdModule}
use clight.Modules.Keyboard.Points.{IsFit, HasPoints}
use clight.Modules.Keyboard.Runs.{handle_all, AllKnown, IsGood, keyboard-IsGood}
use clight.Modules.Keyboard.Deaf.{StaysPaused, kbd_to_req-StaysPaused}
use clight.Examples.Data.{hundredths, line, conf, state}
use clight.Examples.Curves.{libm}
use clight.Examples.Data.{hundredths}

abbrev same_curve : Curve ℤ → Curve ℤ
same_curve c = c

same_curve-IsFit : IsFit same_curve
same_curve-IsFit c = refl

abbrev keyboard : KbdModule ℤ
keyboard = record {
  paused_state = 0;
  timeouts = record { first = pos 15; second = pos 5 };
  curves = record { first = line; second = line };
}

keyboard-HasPoints : HasPoints keyboard
keyboard-HasPoints = (omega arith, omega arith)

abbrev new_curve : CurveUpd ℤ
new_curve = record {
  state = minus_one;
  num_points = pos 2;
  regression_points = some (pos 100 ∷ pos 0 ∷ []);
}

abbrev level : BlUpd ℤ
level = record { old = pos 80; new = pos 20; smooth = pos 0; timeout = pos 0; step = pos 0 }

-- The display is dimmed, a curve is given meanwhile, and the display is on again; the backlight moves.
abbrev inputs : List (Bool × Input ℤ × State ℤ)
inputs =
    (
      true,
      user other_module (display_upd (record { old = pos 0; new = pos 1; no_backlight = false })),
      record state { display_state = 1 },
    )
    ∷ (true, user other_module (kbd_curve_req new_curve), record state { display_state = 1 })
    ∷ (
      false,
      user other_module (display_upd (record { old = pos 1; new = pos 0; no_backlight = false })),
      state,
    )
    ∷ (true, user other_module (bl_upd level), state)
    ∷ []

inputs-AllKnown : AllKnown handler_list [] conf libm same_curve inputs
inputs-AllKnown = (inl refl, tt, (inl refl, omega arith, (inl refl, tt, (inl refl, tt, tt))))

keyboard-IsGood_example :
    IsGood handler_list [] conf libm same_curve
      (handle_all handler_list [] conf libm same_curve inputs keyboard [])
keyboard-IsGood_example =
    keyboard-IsGood handler_list [] conf libm same_curve inputs keyboard [] same_curve-IsFit
      inputs-AllKnown (omega arith, refl) keyboard-HasPoints

abbrev timeout_of : ℤ → TimeoutUpd
timeout_of n = record { new = n; state = on_ac; daytime = minus_one }

abbrev later : List (TimeoutUpd × State ℤ)
later = (timeout_of (pos 30), state) ∷ []

kbd_to_req-StaysPaused_example : StaysPaused conf libm same_curve true later (pos 0) on_ac (
    receive conf libm same_curve true
      (user other_module (kbd_to_req (timeout_of (pos 0))))
      state
      keyboard)
kbd_to_req-StaysPaused_example =
    kbd_to_req-StaysPaused conf libm same_curve true (timeout_of (pos 0)) state keyboard later refl
      (inl refl) refl (omega arith)
