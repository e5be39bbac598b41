-- ===== src/Modules/Backlight/Handlers.antt =====
-- modules/backlight.c: the handlers of messages, and the start.
use clight.Prelude.{
  ℕ, bit_or, Bool, true, false, not, ◌&&◌, Option, none, some, List, [], ◌∷◌, ◌++◌, ◌==◌,
  if◌then◌else◌, ◌>>=◌, minus_one, ltb_ℤ, ◌==ℤ◌, ℤ, pos,
}
use clight.Public.{
  TimeoutUpd, CurveUpd, CalibUpd, BlUpd, upower_upd, inhibit_upd, display_upd, daytime_upd,
  in_event_upd, bl_req, bl_to_req, capture_req, curve_req, no_autocalib_req, lid_upd, suspend_upd,
  screen_br_upd,
}
use clight.Commons.{
  Float, Curve, Conf, State, bl_fd, delayed_fd, backlight_get, match_signal, Effect, publish,
  unbecome, register_fd, settime, bus, Input, fd_upd, loop_stopped, user,
}
use clight.Utils.Pause.{display, autocalib, suspend, inhibit}
use clight.Utils.MyMath.{of_int, Libm}
use clight.Pubsub.Validations.{
  validate_timeout, validate_autocalib, validate_curve, validate_backlight,
}
use clight.Modules.Backlight.{
  BlResult, get_current_timeout, pause_mod, pause_if, reset_or_pause, upower_callback,
  interface_autocalib_callback, interface_curve_callback, interface_timeout_callback, time_callback,
  BlModule, BlMaps, BlReplies,
}
use clight.Modules.Backlight.Levels.{
  set_new_backlight, do_capture, set_each_brightness, set_backlight_level,
}
use clight.Modules.Backlight.Signals.{on_lid_update, on_sensor_change, on_delayed_interface}

-- What BACKLIGHT gets: an input, the start of the wizard, the end of SCREEN, and signals of clightd.
pub data BlEvent (D : Type 0) : Type 0 where
  input : Input D → BlEvent D
  wizard_started : BlEvent D
  screen_stopped : BlEvent D

-- The bits of what has started.
abbrev pub upower_started : ℕ
upower_started = 1

abbrev pub lid_started : ℕ
lid_started = 2

abbrev pub daytime_started : ℕ
daytime_started = 4

abbrev pub screen_started : ℕ
screen_started = 8

abbrev pub all_started : ℕ
all_started = 15

module _ {D : Type 0} where
  unfoldable pub newly_started : BlEvent D → ℕ → ℕ
  newly_started (input (user from (upower_upd up))) ok = bit_or ok upower_started
  newly_started (input (user from (lid_upd up))) ok = bit_or ok lid_started
  newly_started (input (user from (daytime_upd up))) ok = bit_or ok daytime_started
  newly_started (input (user from (screen_br_upd up))) ok = bit_or ok screen_started
  newly_started wizard_started ok = all_started
  newly_started screen_stopped ok = bit_or ok screen_started
  newly_started _ ok = ok

  abbrev pub quiet : Conf D → State D → BlModule D × List (Effect D) → BlResult D
  quiet c s (m, es) = (m, c, s, es)

  abbrev pub and_levels :
      Conf D → State D → BlModule D → Option (List (Effect D)) → Option (BlResult D)
  and_levels c s m o = o >>= λ es. some (m, c, s, es)

  -- A request for a timeout.
  abbrev pub on_bl_to_req : ℤ → TimeoutUpd → Conf D → State D → BlModule D → Option (BlResult D)
  on_bl_to_req fd_timeout up c s m =
      let (valid, up') = validate_timeout s up in
      let taken = interface_timeout_callback fd_timeout up' c s m in
      if valid then taken else some (m, c, s, [])

  abbrev pub on_no_autocalib_req : CalibUpd → Conf D → State D → BlModule D → BlResult D
  on_no_autocalib_req up c s m =
      let taken = interface_autocalib_callback up.new c s m in
      if validate_autocalib c up then taken else (m, c, s, [])

module _ {D : Type 0} ⦃f : Float D⦄ where
  abbrev pub on_bl_curve_req :
      (Curve D → Curve D) → CurveUpd D → Conf D → State D → BlModule D → Option (BlResult D)
  on_bl_curve_req fit up c s m = do
    (valid, up') ← validate_curve s up
    c' ←
        (if valid
          then interface_curve_callback fit up'.regression_points up'.num_points up'.state c
          else some c)
    some (m, c', s, [])

module _ {D : Type 0} ⦃f : Float D⦄ (libm : Libm D) (maps : BlMaps D) where
  -- The steps of the start that come after the sensor has been looked for.
  abbrev pub start_paused :
      Bool → Conf D → State D → BlModule D → Option (BlModule D × List (Effect D))
  start_paused ok c s m = do
    level ←
        set_backlight_level libm maps ok (of_int (pos 1)) (not c.bl_conf.smooth.no_smooth)
          (of_int (pos 0)) (pos 0) c s m
    let (m1, es1) = pause_mod autocalib m
    let begun : BlModule D × List (Effect D) =
        if c.bl_conf.no_auto_calib then (m1, level ++ es1) else (m, [])
    let closed : BlModule D × List (Effect D) = on_lid_update c s begun.0
    some (if s.lid_state ==ℤ pos 0 then begun else (closed.0, begun.1 ++ closed.1))

  unfoldable pub start_backlight : BlReplies D → Conf D → State D → BlModule D → Option (BlResult D)
  start_backlight replies c s m = do
    t ← get_current_timeout c s
    (m1, es1) ← reset_or_pause (pos 0) minus_one false c s m
    let (m2, c2, s2, es2) = on_sensor_change replies.available c s m1
    (m3, es3) ← start_paused replies.ok c s2 m2
    let listen : List (Effect D) =
        bus match_signal ∷ bus match_signal ∷ bus match_signal ∷ bus match_signal ∷ []
    let timer : List (Effect D) =
        settime bl_fd (pos 0) (if ltb_ℤ (pos 0) t then pos 1 else pos 0)
        ∷ register_fd bl_fd none
        ∷ []
    let loaded = record m3 { bls = replies.levels }
    some (
      loaded,
      c,
      s2,
      (unbecome ∷ listen) ++ (timer ++ (es1 ++ (es2 ++ (es3 ++ (bus backlight_get ∷ []))))),
    )

  unfoldable pub receive_waiting_init :
      BlReplies D → BlEvent D → Conf D → State D → BlModule D → Option (BlResult D)
  unfolding newly_started
  receive_waiting_init replies e c s m =
      let ok =
        newly_started e
          (if c.screen_conf.disabled then bit_or m.started screen_started else m.started) in
      let m' = record m { started = ok } in
      let begun = start_backlight replies c s m' in
      if ok == all_started then begun else some (m', c, s, [])

  abbrev pub on_bl_req : Bool → BlUpd D → Conf D → State D → BlModule D → Option (BlResult D)
  on_bl_req ok up c s m =
      let (valid, up') = validate_backlight c s up in
      let taken = and_levels c s m (
        set_backlight_level libm maps ok up'.new (not (up'.smooth ==ℤ pos 0)) up'.step up'.timeout c
          s m) in
      if valid then taken else some (m, c, s, [])

  -- The levels from before, when the loop stops.
  abbrev pub on_loop_stopped : Conf D → State D → BlModule D → Option (BlResult D)
  on_loop_stopped c s m =
      let restored =
        and_levels c s m
          (set_each_brightness libm maps (of_int minus_one) (of_int (pos 0)) (pos 0) c s m.bls) in
      if c.bl_conf.restore then restored else some (m, c, s, [])

  -- The messages that both handlers handle alike.
  unfoldable pub receive_any :
      (Curve D → Curve D)
      → BlReplies D
      → Input D
      → Conf D
      → State D
      → BlModule D
      → Option (BlResult D)
  receive_any fit replies (user from (upower_upd up)) c s m = upower_callback c s m
  receive_any fit replies (user from (display_upd up)) c s m =
      some (quiet c s (pause_if (not (s.display_state == 0)) display m))
  receive_any fit replies (user from (in_event_upd up)) c s m =
      time_callback replies.time_left up.old true c s m
  receive_any fit replies (user from (daytime_upd up)) c s m =
      time_callback replies.time_left up.old false c s m
  receive_any fit replies (user from (lid_upd up)) c s m = some (quiet c s (on_lid_update c s m))
  receive_any fit replies (user from (suspend_upd up)) c s m =
      some (quiet c s (pause_if s.suspended suspend m))
  receive_any fit replies (user from (inhibit_upd up)) c s m =
      some (quiet c s (pause_if (s.inhibited && c.inh_conf.inhibit_bl) inhibit m))
  receive_any fit replies (user from (bl_to_req up)) c s m = on_bl_to_req replies.time_left up c s m
  receive_any fit replies (user from (curve_req up)) c s m = on_bl_curve_req fit up c s m
  receive_any fit replies (user from (no_autocalib_req up)) c s m =
      some (on_no_autocalib_req up c s m)
  receive_any fit replies loop_stopped c s m = on_loop_stopped c s m
  receive_any fit replies _ c s m = some (m, c, s, [])

  unfoldable pub receive :
      (List D → D)
      → (Curve D → Curve D)
      → BlReplies D
      → Input D
      → Conf D
      → State D
      → BlModule D
      → Option (BlResult D)
  unfolding receive_any
  receive mean fit replies (fd_upd delayed_fd ptr) c s m = some (m, c, s, on_delayed_interface s)
  receive mean fit replies (fd_upd _ ptr) c s m = some (
    m,
    c,
    s,
    publish (
          capture_req
            (record { reset_timer = true; capture_only = not (f.eq s.screen_br (of_int (pos 0))) }))
        ∷ [],
  )
  receive mean fit replies (user from (screen_br_upd up)) c s m =
      and_levels c s m (set_new_backlight libm c s)
  receive mean fit replies (user from (capture_req up)) c s m =
      do_capture libm mean replies up.reset_timer up.capture_only c s m
  receive mean fit replies (user from (bl_req up)) c s m = on_bl_req replies.ok up c s m
  receive mean fit replies i c s m = receive_any fit replies i c s m

  unfoldable pub receive_paused :
      (List D → D)
      → (Curve D → Curve D)
      → BlReplies D
      → Input D
      → Conf D
      → State D
      → BlModule D
      → Option (BlResult D)
  unfolding receive_any
  receive_paused mean fit replies (fd_upd fd ptr) c s m = some (m, c, s, on_delayed_interface s)
  receive_paused mean fit replies (user from (screen_br_upd up)) c s m =
      let taken = and_levels c s m (set_new_backlight libm c s) in
      if s.display_state == 0 then taken else some (m, c, s, [])
  receive_paused mean fit replies (user from (capture_req up)) c s m =
      let taken = do_capture libm mean replies up.reset_timer up.capture_only c s m in
      if (s.display_state == 0) && not (s.sens_avail ==ℤ pos 0) then taken else some (m, c, s, [])
  receive_paused mean fit replies (user from (bl_req up)) c s m =
      let taken = on_bl_req replies.ok up c s m in
      if s.display_state == 0 then taken else some (m, c, s, [])
  receive_paused mean fit replies i c s m = receive_any fit replies i c s m
