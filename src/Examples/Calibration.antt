-- ===== src/Examples/Calibration.antt =====
-- The wizard at concrete inputs.
use clight.Prelude.{refl, inl, none, some, List, [], ◌∷◌, ℤ, pos}
use clight.Commons.{Receiver, handler_list}
use clight.Modules.Wizard.{newline, run, WizModule, WizEvent, char_read, captured}
use clight.Modules.Wizard.Steps.{IsInStep, run-IsInStep}
use clight.Examples.Data.{hundredths}
use clight.Examples.Data.{hundredths}

abbrev at_start : WizModule ℤ (List Receiver)
at_start = record {
  wiz_st = 0;
  capture_idx = 0;
  amb_brs = pos 0 ∷ pos 0 ∷ pos 0 ∷ pos 0 ∷ pos 0 ∷ [];
  points = [];
  handlers = [];
}

-- A newline to start, one to capture, the brightness, one to go on, and one with the level.
abbrev first_point : List (WizEvent ℤ)
first_point =
    char_read newline none
    ∷ char_read newline none
    ∷ captured (pos 30)
    ∷ char_read newline none
    ∷ char_read newline (some (pos 40))
    ∷ []

run-IsInStep_example : IsInStep handler_list (run handler_list first_point at_start)
run-IsInStep_example =
    run-IsInStep handler_list first_point at_start (refl, refl, inl (refl, refl, refl))
