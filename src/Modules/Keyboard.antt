-- ===== src/Modules/Keyboard.antt =====
-- modules/keyboard.c: the keyboard's backlight, which follows the screen's. `fit` is `polynomialfit`,
-- which calls GSL, on a curve; `ok`: the call that sets the level succeeds.
pub mod Points
pub mod Synced
pub mod Runs
pub mod Deaf
use clight.Prelude.{
  ℕ, Bool, not, ◌&&◌, Option, none, some, List, [], ◌∷◌, ◌++◌, ◌==◌, if◌then◌else◌, ◌>>=◌, ltb_ℤ,
  leb_ℤ, ◌==ℤ◌, ℤ, pos,
}
use clight.Public.{
  at, put, Pair, TimeoutUpd, CurveUpd, BlUpd, upower_upd, display_upd, bl_upd, kbd_bl_upd,
  kbd_bl_req, suspend_upd, kbd_to_req, kbd_curve_req,
}
use clight.Commons.{
  copy_points, Float, Curve, Conf, State, paused, kbd_set, kbd_set_timeout, Effect, publish, become,
  unbecome, bus, Input, user,
}
use clight.Utils.Pause.{mod_check_pause, ModPause, display, suspend, timeout}
use clight.Utils.MyMath.{of_int, get_value_from_curve, Libm}
use clight.Pubsub.Validations.{validate_timeout, validate_curve, validate_backlight}

-- `paused_state`, and the module's own part of the configuration.
pub record KbdModule (D : Type 0) : Type 0 where
  pub paused_state : ℕ
  pub timeouts : Pair ℤ
  pub curves : Pair (Curve D)

-- What a handler gives back: the module, the shared state and the calls.
abbrev pub KbdResult : Type 0 → Type 0
KbdResult D = KbdModule D × State D × List (Effect D)

module _ {D : Type 0} ⦃f : Float D⦄ where
  -- A message that only has these levels.
  abbrev pub level_message : D → D → BlUpd D
  level_message old new = record {
    old = old;
    new = new;
    smooth = pos 0;
    timeout = pos 0;
    step = of_int (pos 0);
  }

  unfoldable pub set_keyboard_level : Bool → D → State D → State D × List (Effect D)
  set_keyboard_level ok level s =
      if ok
      then (
        record s { current_kbd_pct = level },
        bus (kbd_set level) ∷ publish (kbd_bl_upd (level_message s.current_kbd_pct level)) ∷ [],
      )
      else (s, bus (kbd_set level) ∷ [])

  unfoldable pub pause_kbd : Bool → Bool → ModPause → State D → KbdModule D → KbdResult D
  unfolding set_keyboard_level
  pause_kbd ok pause reason s m =
      let (p, woken) = mod_check_pause pause m.paused_state reason in
      let m' = record m { paused_state = p } in
      let (off_state, off) = set_keyboard_level ok (of_int (pos 0)) s in
      let (on_state, on) = set_keyboard_level ok (f.sub (of_int (pos 1)) s.current_bl_pct) s in
      if woken
      then (if pause
          then (m', off_state, off ++ (become paused ∷ []))
          else (m', on_state, unbecome ∷ on))
      else (m', s, [])

  unfoldable pub set_keyboard_timeout : Bool → State D → KbdModule D → Option (KbdResult D)
  unfolding pause_kbd
  set_keyboard_timeout ok s m = do
    t ← at m.timeouts s.ac_state
    let (m', s', es) = pause_kbd ok (leb_ℤ t (pos 0)) timeout s m
    some (m', s', es ++ (if ltb_ℤ (pos 0) t then bus (kbd_set_timeout t) ∷ [] else []))

  unfoldable pub on_screen_bl_update :
      Libm D → BlUpd D → State D → KbdModule D → Option (KbdResult D)
  on_screen_bl_update libm up s m = do
    curve ← at m.curves s.ac_state
    new_kbd_pct ← get_value_from_curve libm up.new curve
    some (
      m,
      s,
      if up.smooth ==ℤ pos 0
          then publish (kbd_bl_req (level_message (of_int (pos 0)) new_kbd_pct)) ∷ []
          else [],
    )

  -- The request has been checked.
  unfoldable pub on_curve_req :
      (Curve D → Curve D) → CurveUpd D → KbdModule D → Option (KbdModule D)
  unfolding copy_points
  on_curve_req fit up m = do
    old ← at m.curves up.state
    points ← elim up.regression_points [
      | none ↦ some old.points
      | some regr_points ↦ copy_points up.num_points regr_points
    ]
    curves ← put m.curves up.state (fit (record old { points = points }))
    some (record m { curves = curves })

  abbrev pub on_checked_curve :
      (Curve D → Curve D) → CurveUpd D → State D → KbdModule D → Option (KbdResult D)
  on_checked_curve fit up s m = validate_curve s up >>= λ (valid, up').
      (if valid then (on_curve_req fit up' m >>= λ m'. some (m', s, [])) else some (m, s, []))

  abbrev pub on_kbd_to_req : Bool → TimeoutUpd → State D → KbdModule D → Option (KbdResult D)
  on_kbd_to_req ok up s m =
      let (valid, up') = validate_timeout s up in
      if valid
      then (put m.timeouts up'.state up'.new >>= λ ts.
          (if up'.state ==ℤ s.ac_state
            then set_keyboard_timeout ok s (record m { timeouts = ts })
            else some (record m { timeouts = ts }, s, [])))
      else some (m, s, [])

  abbrev pub on_kbd_bl_req : Conf D → Bool → BlUpd D → State D → KbdModule D → KbdResult D
  on_kbd_bl_req c ok up s m =
      let (valid, up') = validate_backlight c s up in
      let (s', es) = set_keyboard_level ok up'.new s in
      if valid && (s.display_state == 0) then (m, s', es) else (m, s, [])

  unfoldable pub receive_waiting_init :
      Bool → Input D → State D → KbdModule D → Option (KbdResult D)
  receive_waiting_init ok (user from (upower_upd up)) s m =
      set_keyboard_timeout ok s m >>= λ (m', s', es). some (m', s', unbecome ∷ es)
  receive_waiting_init ok _ s m = some (m, s, [])

  unfoldable pub receive :
      Conf D
      → Libm D
      → (Curve D → Curve D)
      → Bool
      → Input D
      → State D
      → KbdModule D
      → Option (KbdResult D)
  receive c libm fit ok (user from (bl_upd up)) s m = on_screen_bl_update libm up s m
  receive c libm fit ok (user from (kbd_bl_req up)) s m = some (on_kbd_bl_req c ok up s m)
  receive c libm fit ok (user from (kbd_to_req up)) s m = on_kbd_to_req ok up s m
  receive c libm fit ok (user from (display_upd up)) s m =
      some (pause_kbd ok (not (s.display_state == 0)) display s m)
  receive c libm fit ok (user from (upower_upd up)) s m = set_keyboard_timeout ok s m
  receive c libm fit ok (user from (suspend_upd up)) s m =
      some (pause_kbd ok s.suspended suspend s m)
  receive c libm fit ok (user from (kbd_curve_req up)) s m = on_checked_curve fit up s m
  receive c libm fit ok _ s m = some (m, s, [])

  unfoldable pub receive_paused :
      (Curve D → Curve D) → Bool → Input D → State D → KbdModule D → Option (KbdResult D)
  receive_paused fit ok (user from (display_upd up)) s m =
      some (pause_kbd ok (not (s.display_state == 0)) display s m)
  receive_paused fit ok (user from (upower_upd up)) s m = set_keyboard_timeout ok s m
  receive_paused fit ok (user from (suspend_upd up)) s m =
      some (pause_kbd ok s.suspended suspend s m)
  receive_paused fit ok (user from (kbd_curve_req up)) s m = on_checked_curve fit up s m
  receive_paused fit ok _ s m = some (m, s, [])
