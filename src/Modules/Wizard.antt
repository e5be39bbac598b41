-- ===== src/Modules/Wizard.antt =====
-- modules/wizard.c: the wizard, which captures the ambient brightness and asks for a level, five times, and fits a
-- curve. `get_level` is what the call for the level answers, `none` if it fails.
pub mod Steps
use clight.Prelude.{
  ℕ, zero, suc, ◌%◌, Bool, true, false, not, ◌&&◌, ◌||◌, Option, none, some, List, [], ◌∷◌, ◌++◌,
  ltb, ◌==◌, if◌then◌else◌, get_elem?, pos,
}
use clight.Public.{capture_req}
use clight.Commons.{
  Float, stdin_fd, Receiver, waiting_sens, capturing, calibrating, Effect, publish, become,
  unbecome, register_fd, subscribe_ambient_br, Libmodule,
}

-- `wiz_in_points` is the length of `amb_brs`.
abbrev pub wiz_in_points : ℕ
wiz_in_points = 5

-- `WIZ_CAPTURE_NIGHTLIGHT` is 1, and so on; `WIZ_COMPUTE`.
abbrev pub wiz_compute : ℕ
wiz_compute = 11

-- The static variables, and libmodule's stack of handlers. `points` are the points of the curve that are set.
pub record WizModule (D S : Type 0) : Type 0 where
  pub wiz_st : ℕ
  pub capture_idx : ℕ
  pub amb_brs : List D
  pub points : List D
  pub handlers : S

-- A character that is read, with the answer to the call for the level; a captured brightness; or the sensor.
pub data WizEvent (D : Type 0) : Type 0 where
  char_read : ℕ → Option D → WizEvent D
  captured : D → WizEvent D
  sens_changed : Bool → WizEvent D

-- The wizard goes on, with what it publishes; it quits; or it computes a curve from these values and quits.
pub data WizResult (D S : Type 0) : Type 0 where
  going : WizModule D S → List (Effect D) → WizResult D S
  quits : WizResult D S
  computes : List D → List D → WizResult D S
  out_of_bounds : WizResult D S

abbrev pub put_at : {A : Type 0} → List A → ℕ → A → Option (List A)
put_at [] i a = none
put_at (x ∷ xs) zero a = some (a ∷ xs)
put_at (x ∷ xs) (suc i) a = elim (put_at xs i a) [ none ↦ none | some ys ↦ some (x ∷ ys) ]

-- `'y'`, `'Y'` and a newline.
abbrev pub newline : ℕ
newline = 10

abbrev pub is_yes : ℕ → Bool
is_yes c = (c == 121) || ((c == 89) || (c == newline))

module _ {D S : Type 0} (lib : Libmodule S) where
  unfoldable pub next_step : WizModule D S → WizResult D S
  next_step w =
      let st = suc w.wiz_st in
      let go = λ (r : Receiver).
        going (record w { wiz_st = st; handlers = lib.m_become r w.handlers }) (become r ∷ []) in
      if ltb st wiz_compute
      then (if st % 2 == 0 then go calibrating else go capturing)
      else computes w.amb_brs w.points

  unfoldable pub receive : WizEvent D → WizModule D S → WizResult D S
  unfolding next_step
  receive (char_read c get_level) w = if is_yes c then next_step w else quits
  receive _ w = going w []

  unfoldable pub receive_waiting_sens : WizEvent D → WizModule D S → WizResult D S
  receive_waiting_sens (sens_changed available) w =
      if available
      then going (record w { handlers = lib.m_unbecome w.handlers })
          (subscribe_ambient_br ∷ register_fd stdin_fd none ∷ unbecome ∷ [])
      else quits
  receive_waiting_sens _ w = going w []

  -- `get_backlight` writes the next point, and counts it.
  unfoldable pub receive_calibrating : WizEvent D → WizModule D S → WizResult D S
  unfolding next_step
  receive_calibrating (char_read c none) w = if c == newline then quits else going w []
  receive_calibrating (char_read c (some level)) w =
      if c == newline
      then next_step
          (record w { capture_idx = suc w.capture_idx; points = w.points ++ (level ∷ []) })
      else going w []
  receive_calibrating _ w = going w []

module _ {D S : Type 0} ⦃f : Float D⦄ (lib : Libmodule S) where
  abbrev pub capture_request : Effect D
  capture_request = publish (capture_req (record { reset_timer = false; capture_only = true }))

  unfoldable pub receive_capturing : WizEvent D → WizModule D S → WizResult D S
  unfolding next_step
  receive_capturing (char_read c get_level) w = elim (get_elem? w.amb_brs w.capture_idx) [
    | none ↦ if is_yes c then out_of_bounds else next_step lib w
    | some br ↦
        if is_yes c && (f.eq br (f.literal (pos 0) 1) || not (c == newline))
        then going w (capture_request ∷ [])
        else next_step lib w
  ]
  receive_capturing (captured br) w = elim (put_at w.amb_brs w.capture_idx br) [
    | none ↦ out_of_bounds
    | some brs ↦ going (record w { amb_brs = brs }) []
  ]
  receive_capturing (sens_changed available) w = going w []

  -- The handler on top of the stack.
  abbrev pub by_receiver : Receiver → WizEvent D → WizModule D S → WizResult D S
  by_receiver waiting_sens e w = receive_waiting_sens lib e w
  by_receiver capturing e w = receive_capturing e w
  by_receiver calibrating e w = receive_calibrating lib e w
  by_receiver _ e w = going w []

  unfoldable pub handle : WizEvent D → WizModule D S → WizResult D S
  unfolding receive receive_waiting_sens receive_calibrating receive_capturing
  handle e w = elim (lib.top w.handlers) [ none ↦ receive lib e w | some r ↦ by_receiver r e w ]

  -- Events one after another, until the wizard quits.
  unfoldable pub run : List (WizEvent D) → WizModule D S → WizResult D S
  unfolding handle
  run [] w = going w []
  run (e ∷ es) w =
      let rest = λ (v : WizModule D S). run es v in
      elim (handle e w) [
        | going w' fs ↦ rest w'
        | quits ↦ quits
        | computes brs ps ↦ computes brs ps
        | out_of_bounds ↦ out_of_bounds
      ]
