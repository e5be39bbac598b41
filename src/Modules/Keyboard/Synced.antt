-- ===== src/Modules/Keyboard/Synced.antt =====
-- The handler on top of KEYBOARD's stack agrees with the reasons for a pause, and its curves have
-- points, so that no handler reads or writes out of bounds.
use clight.Prelude.{
  ◌≡◌, sym, subst, inl, inr, Bool, not, Option, none, some, List, [], ◌∷◌, arith, ◌==◌,
  if◌then◌else◌, Bool-cases, ltb_ℤ, leb_ℤ, ◌==ℤ◌, pos,
}
use clight.Public.{
  InPair, at_total, put_total, TimeoutUpd, CurveUpd, BlUpd, upower_upd, display_upd, bl_upd,
  kbd_bl_req, suspend_upd, kbd_to_req, kbd_curve_req,
}
use clight.Commons.{
  Float, Curve, Conf, State, kbd_set_timeout, Effect, bus, Input, user, receivers, receivers-append,
  IsSynced, Libmodule,
}
use clight.Utils.Pause.{ModPause, display, suspend, timeout}
use clight.Utils.Pause.Runs.{IsSynced-step}
use clight.Utils.MyMath.{Libm}
use clight.Modules.Keyboard.{
  KbdResult, set_keyboard_level, pause_kbd, set_keyboard_timeout, on_screen_bl_update,
  on_checked_curve, on_kbd_to_req, receive, receive_paused, KbdModule,
}
use clight.Modules.Keyboard.Points.{
  IsSized, IsFit, HasPoints, get_value_from_curve_total, curve_at, checked_curve,
}
use clight.Pubsub.Validations.{validate_timeout}
use clight.Pubsub.Timeouts.{validate_timeout-InPair}

module _ {D S : Type 0} ⦃f : Float D⦄ (lib : Libmodule S) (base st : S) where
  -- The call returns, and then the stack is right and the curves have points.
  abbrev pub Kept : Option (KbdResult D) → Type 0
  Kept none = ⊥
  Kept (some (m, s, es)) = IsSynced lib base m.paused_state (receivers lib es st) × HasPoints m

  pause_kbd-Kept :
      (ok pause : Bool) (reason : ModPause) (s : State D) (m : KbdModule D)
      → IsSynced lib base m.paused_state st
      → HasPoints m
      → Kept (some (pause_kbd ok pause reason s m))
  unfolding pause_kbd set_keyboard_level
  pause_kbd-Kept ok pause reason s m h k =
      ground (arith, IsSynced-step lib base pause m.paused_state reason st h)

  set_keyboard_timeout-Kept :
      (ok : Bool) (s : State D) (m : KbdModule D)
      → InPair s.ac_state
      → IsSynced lib base m.paused_state st
      → HasPoints m
      → Kept (set_keyboard_timeout ok s m)
  unfolding set_keyboard_timeout
  set_keyboard_timeout-Kept ok s m a h k =
      let (t, e) = at_total m.timeouts s.ac_state a in
      let (m', s', es) = pause_kbd ok (leb_ℤ t (pos 0)) timeout s m in
      let set : List (Effect D) = if ltb_ℤ (pos 0) t then bus (kbd_set_timeout t) ∷ [] else [] in
      let same : receivers lib set (receivers lib es st) ≡ receivers lib es st = ground arith in
      rw (e, receivers-append lib es set st, same)
        (pause_kbd-Kept ok (leb_ℤ t (pos 0)) timeout s m h k)

  on_kbd_to_req-Kept :
      (ok : Bool) (up : TimeoutUpd) (s : State D) (m : KbdModule D)
      → InPair s.ac_state
      → IsSynced lib base m.paused_state st
      → HasPoints m
      → Kept (on_kbd_to_req ok up s m)
  on_kbd_to_req-Kept ok up s m a h k = elim (Bool-cases (validate_timeout s up).0) [
    | inl valid ↦
        let (ts, e) =
          put_total m.timeouts (validate_timeout s up).1.state (validate_timeout s up).1.new
            (validate_timeout-InPair s up valid) in
        rw (valid, e)
          (elim (Bool-cases ((validate_timeout s up).1.state ==ℤ s.ac_state)) [
            | inl same ↦ rw same (set_keyboard_timeout-Kept ok s (record m { timeouts = ts }) a h k)
            | inr other ↦ rw other (h, k)
          ])
    | inr invalid ↦ rw invalid (h, k)
  ]

  on_screen_bl_update-Kept :
      (libm : Libm D) (up : BlUpd D) (s : State D) (m : KbdModule D)
      → InPair s.ac_state
      → IsSynced lib base m.paused_state st
      → HasPoints m
      → Kept (on_screen_bl_update libm up s m)
  unfolding on_screen_bl_update
  on_screen_bl_update-Kept libm up s m a h k =
      let (curve, e, p) = curve_at m s.ac_state a k in
      let (v, e') = get_value_from_curve_total libm up.new curve p in
      rw (e, e')
        (elim (Bool-cases (up.smooth ==ℤ pos 0)) [ inl y ↦ rw y (h, k) | inr n ↦ rw n (h, k) ])

  on_checked_curve-Kept :
      (fit : Curve D → Curve D) (up : CurveUpd D) (s : State D) (m : KbdModule D)
      → IsFit fit
      → IsSized up
      → IsSynced lib base m.paused_state st
      → HasPoints m
      → Kept (on_checked_curve fit up s m)
  on_checked_curve-Kept fit up s m q z h k = elim (checked_curve fit up s m q z k) [
    | inl (up', e) ↦ rw e (h, k)
    | inr (up', e, (m', e', same, k')) ↦
        rw (e, e') (subst (λ p. IsSynced lib base p st) (sym same) h, k')
  ]

module _ {D S : Type 0} ⦃f : Float D⦄ (lib : Libmodule S) (base : S) (c : Conf D) (libm : Libm D)
    (fit : Curve D → Curve D) where
  -- The array of points of a request is as long as it says.
  abbrev pub InputSized : Input D → Type 0
  InputSized (user from (kbd_curve_req up)) = IsSized up
  InputSized _ = Unit

  pub receive-Kept :
      (ok : Bool) (i : Input D) (s : State D) (m : KbdModule D) (st : S)
      → IsFit fit
      → InputSized i
      → InPair s.ac_state
      → IsSynced lib base m.paused_state st
      → HasPoints m
      → Kept lib base st (receive c libm fit ok i s m)
  unfolding receive set_keyboard_level
  receive-Kept ok (user from (bl_upd up)) s m st q z a h k =
      on_screen_bl_update-Kept lib base st libm up s m a h k
  receive-Kept ok (user from (kbd_bl_req up)) s m st q z a h k = ground arith
  receive-Kept ok (user from (kbd_to_req up)) s m st q z a h k =
      on_kbd_to_req-Kept lib base st ok up s m a h k
  receive-Kept ok (user from (display_upd up)) s m st q z a h k =
      pause_kbd-Kept lib base st ok (not (s.display_state == 0)) display s m h k
  receive-Kept ok (user from (upower_upd up)) s m st q z a h k =
      set_keyboard_timeout-Kept lib base st ok s m a h k
  receive-Kept ok (user from (suspend_upd up)) s m st q z a h k =
      pause_kbd-Kept lib base st ok s.suspended suspend s m h k
  receive-Kept ok (user from (kbd_curve_req up)) s m st q z a h k =
      on_checked_curve-Kept lib base st fit up s m q z h k
  receive-Kept ok _ s m st q z a h k = (h, k)

  pub receive_paused-Kept :
      (ok : Bool) (i : Input D) (s : State D) (m : KbdModule D) (st : S)
      → IsFit fit
      → InputSized i
      → InPair s.ac_state
      → IsSynced lib base m.paused_state st
      → HasPoints m
      → Kept lib base st (receive_paused fit ok i s m)
  unfolding receive_paused
  receive_paused-Kept ok (user from (display_upd up)) s m st q z a h k =
      pause_kbd-Kept lib base st ok (not (s.display_state == 0)) display s m h k
  receive_paused-Kept ok (user from (upower_upd up)) s m st q z a h k =
      set_keyboard_timeout-Kept lib base st ok s m a h k
  receive_paused-Kept ok (user from (suspend_upd up)) s m st q z a h k =
      pause_kbd-Kept lib base st ok s.suspended suspend s m h k
  receive_paused-Kept ok (user from (kbd_curve_req up)) s m st q z a h k =
      on_checked_curve-Kept lib base st fit up s m q z h k
  receive_paused-Kept ok _ s m st q z a h k = (h, k)
