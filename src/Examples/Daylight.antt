-- ===== src/Examples/Daylight.antt =====
-- The screen's backlight at concrete inputs.
use clight.Prelude.{
  ℕ, ◌≡◌, refl, inl, Bool, true, false, ◌&&◌, none, some, List, [], ◌∷◌, arith, ◌==◌, minus_one, ℤ,
  pos,
}
use clight.Public.{on_ac, display_upd, bl_to_req, capture_req, lid_upd}
use clight.Commons.{Curve, State, waiting_init, other_module, user, handler_list}
use clight.Utils.MyMath.{larger, smaller}
use clight.Utils.MyMath.Bounds.{Comparison}
use clight.Modules.Keyboard.Points.{IsFit}
use clight.Modules.Backlight.{BlModule, BlMaps, BlReplies}
use clight.Modules.Backlight.Levels.{new_backlight}
use clight.Modules.Backlight.Handlers.{newly_started, receive_waiting_init, input}
use clight.Modules.Backlight.Kept.{HaveDefaults, IsKnown}
use clight.Modules.Backlight.Runs.{
  AllFit, handle_all, EndsSteady, backlight-EndsSteady, BlSignal, message, bl_changed,
}
use clight.Modules.Backlight.Start.{Started, receive_waiting_init-Started}
use clight.Modules.Backlight.Bounds.{new_backlight-between}
use clight.Examples.Data.{hundredths, line, conf, state}
use clight.Examples.Curves.{libm}
use clight.Examples.Data.{hundredths}

abbrev fitted_before : Curve ℤ → Curve ℤ
fitted_before c = c

fitted_before-IsFit : IsFit fitted_before
fitted_before-IsFit c = refl

abbrev first_of : List ℤ → ℤ
first_of [] = pos 0
first_of (x ∷ xs) = x

abbrev no_maps : BlMaps ℤ
no_maps = record {
  get_curve = λ k m. none;
  put_level = λ k v m. (k, v) ∷ m;
  remove_level = λ k m. m;
}

abbrev replies : BlReplies ℤ
replies = record {
  time_left = pos 60;
  intensities = some (pos 40 ∷ []);
  ok = true;
  available = true;
  levels = [];
}

abbrev screen : BlModule ℤ
screen = record { paused_state = 0; started = 15; bls = []; backlight_interface = none }

conf-HaveDefaults : HaveDefaults conf
conf-HaveDefaults = (omega arith, omega arith, refl)

state-IsKnown : IsKnown state
state-IsKnown = (inl refl, inl refl)

abbrev dimmed : State ℤ
dimmed = record state { display_state = 1 }

-- A capture, then the display is dimmed, a timeout is set to 0 meanwhile, and the display is on again.
abbrev run : List (BlReplies ℤ × BlSignal ℤ × State ℤ)
run =
    (
      replies,
      message
          (user other_module (capture_req (record { reset_timer = true; capture_only = false }))),
      state,
    )
    ∷ (
      replies,
      message (
          user other_module
            (display_upd (record { old = pos 0; new = pos 1; no_backlight = false }))),
      dimmed,
    )
    ∷ (
      replies,
      message (
          user other_module
            (bl_to_req (record { new = pos 0; state = on_ac; daytime = minus_one }))),
      dimmed,
    )
    ∷ (
      replies,
      message (
          user other_module
            (display_upd (record { old = pos 1; new = pos 0; no_backlight = false }))),
      state,
    )
    ∷ (replies, bl_changed (97 ∷ []) (pos 30), state)
    ∷ []

run-AllFit : AllFit run
run-AllFit = (
  tt,
  state-IsKnown,
  (tt, state-IsKnown, (tt, state-IsKnown, (tt, state-IsKnown, (tt, state-IsKnown, tt)))),
)

abbrev same_path : List ℕ → List ℕ → Bool
same_path [] [] = true
same_path (a ∷ xs) (b ∷ ys) = (a == b) && same_path xs ys
same_path _ _ = false

backlight-EndsSteady_example :
    EndsSteady handler_list libm no_maps fitted_before first_of same_path [] (
      handle_all handler_list libm no_maps fitted_before first_of same_path run conf screen
        ([], true))
backlight-EndsSteady_example =
    backlight-EndsSteady handler_list libm no_maps fitted_before first_of same_path [] run conf
      screen ([], true) fitted_before-IsFit run-AllFit conf-HaveDefaults ((omega arith, refl), refl)

-- The lid is the last to be known.
receive_waiting_init-Started_example :
    Started handler_list []
      (waiting_init ∷ [], false)
      (receive_waiting_init libm no_maps replies
        (input (user other_module (lid_upd (record { old = minus_one; new = pos 0 }))))
        conf
        state
        (record screen { started = 13 }))
unfolding newly_started
receive_waiting_init-Started_example =
    receive_waiting_init-Started handler_list [] libm no_maps replies
      (input (user other_module (lid_upd (record { old = minus_one; new = pos 0 })))) conf state
      (record screen { started = 13 }) refl refl state-IsKnown conf-HaveDefaults

ordered : Comparison (λ (a : ℤ). Unit)
ordered = record { le_not_lt = λ a b p q. ground arith; lt_asym = λ a b h. ground arith }

-- The screen shows something bright.
abbrev bright : State ℤ
bright = record state { screen_br = pos 90 }

new_backlight-between_example :
    (new : ℤ) × (new_backlight libm conf bright ≡ some new)
    × (hundredths.le (smaller (pos 0) (pos 100)) new ≡ true)
    × (hundredths.le new (larger (pos 100) (pos 0)) ≡ true)
new_backlight-between_example =
    new_backlight-between (λ a. Unit) ordered libm conf bright line (pos 0) (pos 100) refl refl tt
      tt tt (λ v n. tt)
