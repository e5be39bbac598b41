-- ===== src/Modules/Screen.antt =====
-- modules/screen.c: the brightness of what the screen shows. It has no handler for its pauses: its descriptor is
-- taken away. `reply` is what the call for the brightness answers, `none` if it fails; `fd_timeout` is what
-- `get_timeout_sec` returns.
pub mod Paused
pub mod Runs
use clight.Prelude.{
  ℕ, Bool, true, false, not, ◌&&◌, Option, none, some, List, [], ◌∷◌, ◌++◌, ◌==◌, if◌then◌else◌,
  ◌>>=◌, minus_one, leb_ℤ, ◌==ℤ◌, ℤ, pos,
}
use clight.Public.{
  at, put, TimeoutUpd, ContribUpd, upower_upd, inhibit_upd, display_upd, ambient_br_upd, scr_to_req,
  contrib_req, lid_upd, sens_upd, suspend_upd, screen_br_upd, no_autocalib_upd,
}
use clight.Commons.{
  Float, Conf, State, screen_fd, screen_brightness, Effect, publish, unbecome, register_fd,
  deregister_fd, settime, bus, Input, fd_upd, user,
}
use clight.Utils.Pause.{
  mod_check_pause, ModPause, display, sensor, autocalib, lid, suspend, timeout, inhibit, contrib,
  clogged,
}
use clight.Utils.Timer.{set_timeout, reset_timer}
use clight.Utils.MyMath.{of_int}
use clight.Pubsub.Validations.{validate_timeout, validate_contrib}

-- `paused_state`, and the levels of the static `screen_msg`.
pub record ScreenModule (D : Type 0) : Type 0 where
  pub paused_state : ℕ
  pub msg_old : D
  pub msg_new : D

abbrev pub ScreenResult : Type 0 → Type 0
ScreenResult D = ScreenModule D × Conf D × State D × List (Effect D)

module _ {D : Type 0} ⦃f : Float D⦄ where
  abbrev pub screen_msg : ScreenModule D → Effect D
  screen_msg m = publish (
      screen_br_upd (record {
        old = m.msg_old;
        new = m.msg_new;
        smooth = pos 0;
        timeout = pos 0;
        step = of_int (pos 0);
      }))

  unfoldable pub pause_screen :
      Bool → ModPause → Bool → State D → ScreenModule D → ScreenModule D × State D × List (Effect D)
  pause_screen pause reason reset_screen_br s m =
      let (p, changed) = mod_check_pause pause m.paused_state reason in
      (
        record m { paused_state = p },
        record s { screen_br = if pause && reset_screen_br then of_int (pos 0) else s.screen_br },
        if changed
            then (if pause then deregister_fd screen_fd ∷ [] else register_fd screen_fd none ∷ [])
            else [],
      )

  -- The result is 0 exactly when there is a reply, or the module is paused.
  unfoldable pub get_screen_brightness :
      Option D → Bool → State D → ScreenModule D → ScreenModule D × State D × List (Effect D)
  get_screen_brightness reply emit s m =
      let asked = record m { msg_old = s.screen_br } in
      let call : Effect D = bus screen_brightness in
      let answered : ScreenModule D × State D × List (Effect D) = elim reply [
        | none ↦ (asked, s, call ∷ [])
        | some new_br ↦
            if emit
            then (
              record asked { msg_new = new_br },
              record s { screen_br = new_br },
              call ∷ screen_msg (record asked { msg_new = new_br }) ∷ [],
            )
            else (asked, s, call ∷ [])
      ] in
      if m.paused_state == 0 then answered else (m, s, [])

  abbrev pub with_conf : Conf D → ScreenModule D × State D × List (Effect D) → ScreenResult D
  with_conf c (m, s, es) = (m, c, s, es)

  unfoldable pub timeout_callback :
      ℤ → ℤ → Bool → Conf D → State D → ScreenModule D → Option (ScreenResult D)
  timeout_callback fd_timeout old_val reset c s m = do
    t ← at c.screen_conf.timeout s.ac_state
    let stopped = with_conf c (pause_screen true timeout true s m)
    let (m', s', es) = pause_screen false timeout false s m
    let going : ScreenResult D =
        (m', c, s', es ++ (if reset then reset_timer screen_fd fd_timeout old_val t else []))
    some (if leb_ℤ t (pos 0) then stopped else going)

  unfoldable pub receive_waiting_state :
      Input D → Conf D → State D → ScreenModule D → Option (ScreenResult D)
  receive_waiting_state (user from (upower_upd up)) c s m = do
    t ← at c.screen_conf.timeout s.ac_state
    (m1, c1, s1, es1) ← timeout_callback (pos 0) minus_one false c s m
    let (m2, s2, es2) =
        pause_screen (f.eq c.screen_conf.contrib (of_int (pos 0))) contrib true s1 m1
    some (
      m2,
      c,
      s2,
      (unbecome ∷ settime screen_fd t (pos 0) ∷ register_fd screen_fd none ∷ []) ++ (es1 ++ es2),
    )
  receive_waiting_state _ c s m = some (m, c, s, [])

  unfoldable pub on_ambient_br : Option D → Conf D → State D → ScreenModule D → ScreenResult D
  unfolding pause_screen get_screen_brightness
  on_ambient_br reply c s m =
      let (m1, s1, es1) =
        pause_screen (f.lt s.ambient_br c.bl_conf.shutter_threshold) clogged false s m in
      let (m2, s2, es2) = get_screen_brightness reply true s1 m1 in
      if m1.paused_state == 0 then (m2, c, s2, es1 ++ es2) else (m1, c, s1, es1)

  abbrev pub on_screen_fd : Option D → Conf D → State D → ScreenModule D → Option (ScreenResult D)
  on_screen_fd reply c s m = do
    t ← at c.screen_conf.timeout s.ac_state
    let (m1, s1, es1) = get_screen_brightness reply true s m
    some (m1, c, s1, es1 ++ (set_timeout t (pos 0) screen_fd ∷ []))

  -- The request has been checked.
  unfoldable pub set_screen_timeout :
      ℤ → TimeoutUpd → Conf D → State D → ScreenModule D → Option (ScreenResult D)
  set_screen_timeout fd_timeout up c s m = do
    old ← at c.screen_conf.timeout up.state
    ts ← put c.screen_conf.timeout up.state up.new
    let c' = record c { screen_conf = record c.screen_conf { timeout = ts } }
    (if up.state ==ℤ s.ac_state
        then timeout_callback fd_timeout old true c' s m
        else some (m, c', s, []))

  abbrev pub on_scr_to_req :
      ℤ → TimeoutUpd → Conf D → State D → ScreenModule D → Option (ScreenResult D)
  on_scr_to_req fd_timeout up c s m =
      let (valid, up') = validate_timeout s up in
      let taken = set_screen_timeout fd_timeout up' c s m in
      if valid then taken else some (m, c, s, [])

  unfoldable pub on_contrib_req : ContribUpd D → Conf D → State D → ScreenModule D → ScreenResult D
  unfolding pause_screen
  on_contrib_req up c s m =
      let c' = record c { screen_conf = record c.screen_conf { contrib = up.new } } in
      let (m1, s1, es1) = pause_screen (f.eq up.new (of_int (pos 0))) contrib true s m in
      (m1, c', s1, es1 ++ (if m1.paused_state == 0 then screen_msg m1 ∷ [] else []))

  unfoldable pub receive :
      ℤ → Option D → Input D → Conf D → State D → ScreenModule D → Option (ScreenResult D)
  unfolding on_contrib_req
  receive fd_timeout reply (user from (ambient_br_upd up)) c s m = some (on_ambient_br reply c s m)
  receive fd_timeout reply (fd_upd fd ptr) c s m = on_screen_fd reply c s m
  receive fd_timeout reply (user from (upower_upd up)) c s m =
      at c.screen_conf.timeout up.old >>= λ old. timeout_callback fd_timeout old true c s m
  receive fd_timeout reply (user from (display_upd up)) c s m =
      some (with_conf c (pause_screen (not (s.display_state == 0)) display false s m))
  receive fd_timeout reply (user from (sens_upd up)) c s m =
      some (with_conf c (pause_screen (s.sens_avail ==ℤ pos 0) sensor true s m))
  receive fd_timeout reply (user from (lid_upd up)) c s m =
      let taken = with_conf c (pause_screen (not (s.lid_state ==ℤ pos 0)) lid false s m) in
      some (if c.bl_conf.pause_on_lid_closed then taken else (m, c, s, []))
  receive fd_timeout reply (user from (suspend_upd up)) c s m =
      some (with_conf c (pause_screen s.suspended suspend false s m))
  receive fd_timeout reply (user from (scr_to_req up)) c s m = on_scr_to_req fd_timeout up c s m
  receive fd_timeout reply (user from (no_autocalib_upd up)) c s m =
      some (with_conf c (pause_screen up.new autocalib true s m))
  receive fd_timeout reply (user from (inhibit_upd up)) c s m =
      some (with_conf c (pause_screen (s.inhibited && c.inh_conf.inhibit_bl) inhibit true s m))
  receive fd_timeout reply (user from (contrib_req up)) c s m =
      let taken = on_contrib_req up c s m in
      some (if validate_contrib c up then taken else (m, c, s, []))
  receive fd_timeout reply _ c s m = some (m, c, s, [])
