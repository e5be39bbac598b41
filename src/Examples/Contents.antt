-- ===== src/Examples/Contents.antt =====
-- What the screen shows, at concrete inputs.
use clight.Prelude.{◌≡◌, refl, inl, true, false, Option, none, some, List, [], ◌∷◌, arith, ℤ, pos}
use clight.Public.{sens_upd}
use clight.Commons.{State, screen_fd, other_module, Input, fd_upd, user}
use clight.Utils.Pause.{ModPause}
use clight.Utils.Pause.Bits.{has, eq_zero_iff}
use clight.Modules.Screen.{ScreenModule}
use clight.Modules.Screen.Paused.{resets}
use clight.Modules.Screen.Runs.{handle_all, AllFit, EndsResting, screen-EndsResting}
use clight.Examples.Data.{hundredths, conf, state}
use clight.Examples.Data.{hundredths}

abbrev watched : ScreenModule ℤ
watched = record { paused_state = 0; msg_old = pos 0; msg_new = pos 0 }

-- A brightness is read; the sensor goes away; the timer's event comes late; the sensor is there again.
abbrev events : List (ℤ × Option ℤ × Input ℤ × State ℤ)
events =
    (pos 0, some (pos 70), fd_upd screen_fd none, record state { sens_avail = pos 1 })
    ∷ (pos 0, none, user other_module (sens_upd (record { old = true; new = false })), state)
    ∷ (pos 0, some (pos 60), fd_upd screen_fd none, state)
    ∷ (
      pos 0,
      none,
      user other_module (sens_upd (record { old = false; new = true })),
      record state { sens_avail = pos 1 },
    )
    ∷ []

events-AllFit : AllFit events
events-AllFit = (tt, inl refl, (tt, inl refl, (tt, inl refl, (tt, inl refl, tt))))

watched-Dark : (r : ModPause) → resets r ≡ true → has 0 r ≡ true → pos 70 ≡ pos 0
watched-Dark r z k = absurd (ground (arith, (eq_zero_iff 0 (omega arith)).0 refl r, k))

screen-EndsResting_example : EndsResting (handle_all events conf (pos 70) watched true)
screen-EndsResting_example =
    screen-EndsResting events conf (pos 70) watched true events-AllFit
      (omega arith, refl, watched-Dark)
