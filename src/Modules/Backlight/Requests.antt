-- ===== src/Modules/Backlight/Requests.antt =====
-- BACKLIGHT's handlers return, and keep the stack, the registration of the timer and the curves right.
use clight.Prelude.{
  ◌≡◌, refl, inl, inr, Bool, true, false, not, ◌&&◌, Option, none, some, List, [], ◌∷◌, ◌==◌,
  if◌then◌else◌, Bool-cases, ◌>>=◌, ◌==ℤ◌, ℤ, pos,
}
use clight.Public.{
  at, put, InPair, Pair, TimeoutUpd, CurveUpd, CalibUpd, BlUpd, upower_upd, inhibit_upd,
  display_upd, daytime_upd, in_event_upd, bl_to_req, curve_req, no_autocalib_req, lid_upd,
  suspend_upd, no_autocalib_upd,
}
use clight.Commons.{
  copy_points, Float, Curve, Conf, State, Effect, publish, Input, loop_stopped, user, Libmodule,
}
use clight.Utils.Pause.{display, sensor, autocalib, lid, suspend, inhibit}
use clight.Utils.Timer.{set_timeout}
use clight.Utils.MyMath.{Libm}
use clight.Pubsub.Validations.{validate_timeout, validate_autocalib, validate_backlight}
use clight.Pubsub.Timeouts.{validate_timeout-InPair}
use clight.Modules.Keyboard.{on_curve_req, KbdModule}
use clight.Modules.Keyboard.Points.{IsSized, IsFit, checked_curve}
use clight.Modules.Backlight.{
  pause_if, interface_autocalib_callback, interface_curve_callback, BlModule, BlMaps, BlReplies,
}
use clight.Modules.Backlight.Signals.{on_lid_update, on_sensor_change}
use clight.Modules.Backlight.Handlers.{
  on_bl_to_req, on_no_autocalib_req, on_bl_curve_req, on_bl_req, receive_any,
}
use clight.Modules.Backlight.Synced.{
  Steady, SteadyAfter, pause_mod-Steady, resume_mod-Steady, pause_if-Steady, append-Steady,
}
use clight.Modules.Backlight.Kept.{
  HaveDefaults, IsKnown, Kept, upower_callback-Kept, time_callback-Kept,
  interface_timeout_callback-Kept,
}
use clight.Modules.Backlight.Calls.{set_backlight_level-Kept}

-- The default curves, as KEYBOARD's: both modules check and store theirs alike.
abbrev as_keyboard : {D : Type 0} → Conf D → KbdModule D
as_keyboard c = record {
  paused_state = 0;
  timeouts = record { first = pos 0; second = pos 0 };
  curves = c.sens_conf.default_curve;
}

module _ {D : Type 0} where
  -- The loop goes on, a curve's array is as long as the request says, and a time of day before a change
  -- was known.
  abbrev pub InputFits : Input D → Type 0
  InputFits (user from (curve_req up)) = IsSized up
  InputFits (user from (daytime_upd up)) = InPair up.old
  InputFits loop_stopped = ⊥
  InputFits _ = Unit

module _ {D : Type 0} ⦃f : Float D⦄ where
  interface_curve-as_keyboard :
      (fit : Curve D → Curve D) (up : CurveUpd D) (c : Conf D) (k : KbdModule D)
      → on_curve_req fit up (as_keyboard c) ≡ some k
      → interface_curve_callback fit up.regression_points up.num_points up.state c
        ≡ some (record c { sens_conf = record c.sens_conf { default_curve = k.curves } })
  unfolding interface_curve_callback on_curve_req
  interface_curve-as_keyboard fit up c k e = go (at c.sens_conf.default_curve up.state) e
    where
      with_curves : Pair (Curve D) → Conf D
      with_curves cs = record c { sens_conf = record c.sens_conf { default_curve = cs } }

      points : Curve D → Option (List D)
      points old = elim up.regression_points [
        | none ↦ some old.points
        | some new ↦ copy_points up.num_points new
      ]

      curves_of : Curve D → List D → Option (Pair (Curve D))
      curves_of old ps = put c.sens_conf.default_curve up.state (fit (record old { points = ps }))

      stored :
          (o : Option (Pair (Curve D)))
          → (o >>= λ cs. some (record (as_keyboard c) { curves = cs })) ≡ some k
          → (o >>= λ cs. some (with_curves cs)) ≡ some (with_curves k.curves)
      stored none e = cc
      stored (some cs) e = cc

      copied :
          (old : Curve D) (o : Option (List D))
          → (o >>= λ ps. curves_of old ps >>= λ cs. some (record (as_keyboard c) { curves = cs }))
            ≡ some k
          → (o >>= λ ps. curves_of old ps >>= λ cs. some (with_curves cs))
            ≡ some (with_curves k.curves)
      copied old none e = cc
      copied old (some ps) e = stored (curves_of old ps) e

      go :
          (o : Option (Curve D))
          → (o >>= λ old. points old >>= λ ps.
              curves_of old ps >>= λ cs. some (record (as_keyboard c) { curves = cs }))
            ≡ some k
          → (o >>= λ old. points old >>= λ ps. curves_of old ps >>= λ cs. some (with_curves cs))
            ≡ some (with_curves k.curves)
      go none e = cc
      go (some old) e = copied old (points old) e

module _ {D S : Type 0} ⦃f : Float D⦄ (lib : Libmodule S) (base : S) (w : S × Bool) where
  curve_req-Kept :
      (fit : Curve D → Curve D) (up : CurveUpd D) (c : Conf D) (s : State D) (m : BlModule D)
      → IsFit fit
      → IsSized up
      → HaveDefaults c
      → Steady lib base m.paused_state w
      → Kept lib base w (on_bl_curve_req fit up c s m)
  curve_req-Kept fit up c s m q z g h =
      elim (checked_curve fit up s (as_keyboard c) q z (g.0, g.1)) [
        | inl (up', e) ↦ rw e (h, g)
        | inr (up', e, (k, e', same, p)) ↦
            rw (e, interface_curve-as_keyboard fit up' c k e') (h, (p.0, p.1, g.2))
      ]

  timeout_req-Kept :
      (left : ℤ) (up : TimeoutUpd) (c : Conf D) (s : State D) (m : BlModule D)
      → IsKnown s
      → HaveDefaults c
      → Steady lib base m.paused_state w
      → Kept lib base w (on_bl_to_req left up c s m)
  timeout_req-Kept left up c s m k g h = elim (Bool-cases (validate_timeout s up).0) [
    | inl valid ↦ rw valid (
        interface_timeout_callback-Kept lib base w left (validate_timeout s up).1 c s m k
          (validate_timeout-InPair s up valid) g h)
    | inr invalid ↦ rw invalid (h, g)
  ]

  no_autocalib_req-Kept :
      (up : CalibUpd) (c : Conf D) (s : State D) (m : BlModule D)
      → HaveDefaults c
      → Steady lib base m.paused_state w
      → Kept lib base w (some (on_no_autocalib_req up c s m))
  unfolding interface_autocalib_callback
  no_autocalib_req-Kept up c s m g h = elim (Bool-cases (validate_autocalib c up)) [
    | inl valid ↦
        let (m', es) = pause_if up.new autocalib m in
        let said : List (Effect D) = publish (no_autocalib_upd (record { new = up.new })) ∷ [] in
        rw valid (
          append-Steady lib base m' es said w (λ v. refl)
              (pause_if-Steady lib base up.new autocalib m w h),
          g,
        )
    | inr invalid ↦ rw invalid (h, g)
  ]

  pub on_lid_update-Steady :
      (c : Conf D) (s : State D) (m : BlModule D)
      → Steady lib base m.paused_state w
      → SteadyAfter lib base w (on_lid_update c s m)
  unfolding on_lid_update set_timeout
  on_lid_update-Steady c s m h = elim (Bool-cases (s.lid_state ==ℤ pos 0)) [
    | inl opened ↦ elim (Bool-cases c.bl_conf.capture_on_lid_opened) [
      | inl y ↦ rw (opened, y) (resume_mod-Steady lib base lid m w h)
      | inr n ↦ rw (opened, n) (resume_mod-Steady lib base lid m w h)
    ]
    | inr closed ↦ elim (Bool-cases c.bl_conf.pause_on_lid_closed) [
      | inl y ↦ rw (closed, y) (pause_mod-Steady lib base lid m w h)
      | inr n ↦ rw (closed, n) h
    ]
  ]

  pub on_sensor_change-Kept :
      (available : Bool) (c : Conf D) (s : State D) (m : BlModule D)
      → HaveDefaults c
      → Steady lib base m.paused_state w
      → Kept lib base w (some (on_sensor_change available c s m))
  unfolding on_sensor_change
  on_sensor_change-Kept available c s m g h =
      elim (Bool-cases ((if available then pos 1 else pos 0) ==ℤ s.sens_avail)) [
        | inl y ↦ rw y (h, g)
        | inr n ↦ rw n (pause_if-Steady lib base (not available) sensor m w h, g)
      ]

  -- A level that is asked for, by a module with the level's transition.
  pub bl_req-Kept :
      (libm : Libm D) (maps : BlMaps D) (ok : Bool) (up : BlUpd D) (c : Conf D) (s : State D)
      (m : BlModule D)
      → HaveDefaults c
      → Steady lib base m.paused_state w
      → Kept lib base w (on_bl_req libm maps ok up c s m)
  bl_req-Kept libm maps ok up c s m g h =
      let up' = (validate_backlight c s up).1 in
      elim (Bool-cases (validate_backlight c s up).0) [
        | inl valid ↦ rw valid (
            set_backlight_level-Kept lib libm base w maps ok up'.new (not (up'.smooth ==ℤ pos 0))
              up'.step up'.timeout c s m g h)
        | inr invalid ↦ rw invalid (h, g)
      ]

  pub receive_any-Kept :
      (libm : Libm D) (maps : BlMaps D) (fit : Curve D → Curve D) (replies : BlReplies D)
      (i : Input D) (c : Conf D) (s : State D) (m : BlModule D)
      → IsFit fit
      → InputFits i
      → IsKnown s
      → HaveDefaults c
      → Steady lib base m.paused_state w
      → Kept lib base w (receive_any libm maps fit replies i c s m)
  unfolding receive_any
  receive_any-Kept libm maps fit replies (user from (upower_upd up)) c s m q z k g h =
      upower_callback-Kept lib base w c s m k g h
  receive_any-Kept libm maps fit replies (user from (display_upd up)) c s m q z k g h =
      (pause_if-Steady lib base (not (s.display_state == 0)) display m w h, g)
  receive_any-Kept libm maps fit replies (user from (in_event_upd up)) c s m q z k g h =
      time_callback-Kept lib base w replies.time_left up.old true c s m k (inl refl) g h
  receive_any-Kept libm maps fit replies (user from (daytime_upd up)) c s m q z k g h =
      time_callback-Kept lib base w replies.time_left up.old false c s m k (inr z) g h
  receive_any-Kept libm maps fit replies (user from (lid_upd up)) c s m q z k g h =
      (on_lid_update-Steady c s m h, g)
  receive_any-Kept libm maps fit replies (user from (suspend_upd up)) c s m q z k g h =
      (pause_if-Steady lib base s.suspended suspend m w h, g)
  receive_any-Kept libm maps fit replies (user from (inhibit_upd up)) c s m q z k g h =
      (pause_if-Steady lib base (s.inhibited && c.inh_conf.inhibit_bl) inhibit m w h, g)
  receive_any-Kept libm maps fit replies (user from (bl_to_req up)) c s m q z k g h =
      timeout_req-Kept replies.time_left up c s m k g h
  receive_any-Kept libm maps fit replies (user from (curve_req up)) c s m q z k g h =
      curve_req-Kept fit up c s m q z g h
  receive_any-Kept libm maps fit replies (user from (no_autocalib_req up)) c s m q z k g h =
      no_autocalib_req-Kept up c s m g h
  receive_any-Kept libm maps fit replies loop_stopped c s m q z k g h = absurd z
  receive_any-Kept libm maps fit replies _ c s m q z k g h = (h, g)
