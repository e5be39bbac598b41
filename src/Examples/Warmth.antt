-- ===== src/Examples/Warmth.antt =====
-- The screen's temperature at concrete inputs.
use clight.Prelude.{
  ◌/◌, ◌≡◌, refl, inl, inr, true, false, some, List, [], ◌∷◌, pos_part, minus_one, ℤ, pos,
}
use clight.Public.{
  night, sunrise, sunset, SuspendUpd, TempUpd, temp_req, next_dayevt_upd, suspend_upd,
}
use clight.Commons.{State, daytime_module, other_module, Input, user}
use clight.Modules.Gamma.{GammaModule}
use clight.Modules.Gamma.Handlers.{receive_paused}
use clight.Modules.Gamma.Resumed.{
  any_wants_sync, AllQuiet, paused_run, resumed, beside, resume-syncs,
}
use clight.Examples.Data.{hundredths, conf, state}
use clight.Examples.Data.{hundredths}

abbrev gamma_module : GammaModule
gamma_module = record {
  paused_state = 16;
  initial_temp = pos 6500;
  long_transitioning = false;
  should_sync_temp = false;
  last_t = pos 40000;
}

-- The day of the epoch, in its first year.
abbrev day_of : ℤ → ℤ × ℤ
day_of t = (pos (pos_part t / 86400), pos 1970)

-- It is night, and DAYTIME asks for its temperature.
abbrev night_request : TempUpd
night_request = record {
  daytime = minus_one;
  old = pos 0;
  new = pos 4000;
  smooth = minus_one;
  step = pos 0;
  timeout = pos 0;
}

abbrev night_state : State ℤ
night_state = record state { day_time = night; suspended = true }

abbrev inputs : List (Input ℤ × State ℤ)
inputs =
    (user other_module (next_dayevt_upd (record { old = sunset; new = sunrise })), night_state)
    ∷ (user daytime_module (temp_req night_request), night_state)
    ∷ []

inputs-AllQuiet : AllQuiet day_of true (pos 80000) conf inputs
inputs-AllQuiet = (tt, ((inr refl, inl refl), tt))

abbrev woken : State ℤ
woken = record state { day_time = night }

abbrev resume : SuspendUpd
resume = record { old = true; new = false; force = false }

resume-syncs_example :
    (m' : GammaModule) × (paused_run day_of true (pos 80000) conf inputs gamma_module ≡ some m')
    × (receive_paused day_of true (pos 80000) (user other_module (suspend_upd resume)) conf woken m'
        ≡ beside day_of true (pos 80000) conf woken (
            resumed day_of true
              (pos 80000)
              conf
              (any_wants_sync day_of true (pos 80000) conf false inputs)
              woken
              m'))
resume-syncs_example =
    resume-syncs day_of true (pos 80000) conf inputs gamma_module resume other_module woken
      inputs-AllQuiet refl refl refl
