-- ===== src/Modules/Screen/Runs.antt =====
-- Runs of SCREEN's handler.
use clight.Prelude.{
  ◌≡◌, refl, ◌∙◌, inl, inr, Bool, true, false, not, ◌&&◌, Option, none, some, List, [], ◌∷◌, ◌++◌,
  arith, ◌==◌, if◌then◌else◌, Bool-cases, ◌>>=◌, ◌==ℤ◌, ℤ, pos,
}
use clight.Public.{
  InPair, at_total, put_total, TimeoutUpd, ContribUpd, upower_upd, inhibit_upd, display_upd,
  ambient_br_upd, scr_to_req, contrib_req, lid_upd, sens_upd, suspend_upd, no_autocalib_upd,
}
use clight.Commons.{Float, Conf, State, screen_fd, Effect, Input, fd_upd, user}
use clight.Utils.Pause.{display, sensor, autocalib, lid, suspend, inhibit, contrib, clogged}
use clight.Utils.Timer.{set_timeout}
use clight.Utils.MyMath.{of_int}
use clight.Pubsub.Validations.{validate_timeout, validate_contrib}
use clight.Pubsub.Timeouts.{validate_timeout-InPair}
use clight.Modules.Screen.{
  ScreenResult, screen_msg, pause_screen, get_screen_brightness, on_ambient_br, on_screen_fd,
  set_screen_timeout, on_scr_to_req, on_contrib_req, receive, ScreenModule,
}
use clight.Modules.Screen.Paused.{
  watch, watch-append, IsResting, RestsAfter, pause_screen-RestsAfter, get-RestsAfter, Kept,
  timeout_callback-Kept,
}

module _ {D : Type 0} ⦃f : Float D⦄ where
  -- Calls that leave the registration alone may follow.
  append-RestsAfter :
      (m : ScreenModule D) (s : State D) (es more : List (Effect D)) (b : Bool)
      → ((v : Bool) → watch more v ≡ v)
      → RestsAfter b (m, s, es)
      → RestsAfter b (m, s, es ++ more)
  append-RestsAfter m s es more b q (p, e, dark) =
      (p, watch-append es more b ∙ q (watch es b) ∙ e, dark)

  if_awake :
      (b awake : Bool) (x y : ScreenResult D)
      → Kept b (some x)
      → Kept b (some y)
      → Kept b (some (if awake then x else y))
  if_awake b true x y h k = h
  if_awake b false x y h k = k

  on_ambient_br-Kept :
      (reply : Option D) (c : Conf D) (s : State D) (m : ScreenModule D) (b : Bool)
      → IsResting m.paused_state b s.screen_br
      → Kept b (some (on_ambient_br reply c s m))
  unfolding on_ambient_br
  on_ambient_br-Kept reply c s m b h =
      let dull = f.lt s.ambient_br c.bl_conf.shutter_threshold in
      let (m1, s1, es1) = pause_screen dull clogged false s m in
      let first =
        pause_screen-RestsAfter dull clogged false s m b (λ z. absurd (ground (arith, z))) h in
      let (m2, s2, es2) = get_screen_brightness reply true s1 m1 in
      let (p, e, dark) = get-RestsAfter reply true s1 m1 (watch es1 b) first in
      if_awake b (m1.paused_state == 0) (m2, c, s2, es1 ++ es2) (m1, c, s1, es1)
        (p, watch-append es1 es2 b ∙ e, dark) first

  on_screen_fd-Kept :
      (reply : Option D) (c : Conf D) (s : State D) (m : ScreenModule D) (b : Bool)
      → InPair s.ac_state
      → IsResting m.paused_state b s.screen_br
      → Kept b (on_screen_fd reply c s m)
  unfolding set_timeout
  on_screen_fd-Kept reply c s m b a h =
      let (t, e) = at_total c.screen_conf.timeout s.ac_state a in
      let (m1, s1, es1) = get_screen_brightness reply true s m in
      let armed : List (Effect D) = set_timeout t (pos 0) screen_fd ∷ [] in
      rw e (append-RestsAfter m1 s1 es1 armed b (λ v. refl) (get-RestsAfter reply true s m b h))

  on_scr_to_req-Kept :
      (left : ℤ) (up : TimeoutUpd) (c : Conf D) (s : State D) (m : ScreenModule D) (b : Bool)
      → InPair s.ac_state
      → IsResting m.paused_state b s.screen_br
      → Kept b (on_scr_to_req left up c s m)
  unfolding set_screen_timeout
  on_scr_to_req-Kept left up c s m b a h = elim (Bool-cases (validate_timeout s up).0) [
    | inr invalid ↦ rw invalid h
    | inl valid ↦
        let up' = (validate_timeout s up).1 in
        let here = validate_timeout-InPair s up valid in
        let (old, e) = at_total c.screen_conf.timeout up'.state here in
        let (ts, e') = put_total c.screen_conf.timeout up'.state up'.new here in
        let c' = record c { screen_conf = record c.screen_conf { timeout = ts } } in
        rw (valid, set_screen_timeout, e, e')
          (elim (Bool-cases (up'.state ==ℤ s.ac_state)) [
            | inl same ↦ rw same (timeout_callback-Kept left old true c' s m b a h)
            | inr other ↦ rw other h
          ])
  ]

  on_contrib_req-Kept :
      (up : ContribUpd D) (c : Conf D) (s : State D) (m : ScreenModule D) (b : Bool)
      → IsResting m.paused_state b s.screen_br
      → Kept b (some (on_contrib_req up c s m))
  unfolding on_contrib_req
  on_contrib_req-Kept up c s m b h =
      let off = f.eq up.new (of_int (pos 0)) in
      let (m1, s1, es1) = pause_screen off contrib true s m in
      let said : List (Effect D) = if m1.paused_state == 0 then screen_msg m1 ∷ [] else [] in
      let still : (v : Bool) → watch said v ≡ v =
        λ v. elim (Bool-cases (m1.paused_state == 0)) [ inl y ↦ rw y refl | inr n ↦ rw n refl ] in
      append-RestsAfter m1 s1 es1 said b still
        (pause_screen-RestsAfter off contrib true s m b (λ z k. refl) h)

  -- The power supply before a change of it is known.
  abbrev pub InputFits : Input D → Type 0
  InputFits (user from (upower_upd up)) = InPair up.old
  InputFits _ = Unit

  receive-Kept :
      (left : ℤ) (reply : Option D) (i : Input D) (c : Conf D) (s : State D) (m : ScreenModule D)
      (b : Bool)
      → InputFits i
      → InPair s.ac_state
      → IsResting m.paused_state b s.screen_br
      → Kept b (receive left reply i c s m)
  unfolding receive
  receive-Kept left reply (user from (ambient_br_upd up)) c s m b z a h =
      on_ambient_br-Kept reply c s m b h
  receive-Kept left reply (fd_upd fd ptr) c s m b z a h = on_screen_fd-Kept reply c s m b a h
  receive-Kept left reply (user from (upower_upd up)) c s m b z a h =
      let (old, e) = at_total c.screen_conf.timeout up.old z in
      rw e (timeout_callback-Kept left old true c s m b a h)
  receive-Kept left reply (user from (display_upd up)) c s m b z a h =
      pause_screen-RestsAfter (not (s.display_state == 0)) display false s m b
        (λ z. absurd (ground (arith, z))) h
  receive-Kept left reply (user from (sens_upd up)) c s m b z a h =
      pause_screen-RestsAfter (s.sens_avail ==ℤ pos 0) sensor true s m b (λ z k. refl) h
  receive-Kept left reply (user from (lid_upd up)) c s m b z a h =
      elim (Bool-cases c.bl_conf.pause_on_lid_closed) [
        | inl y ↦ rw y (
            pause_screen-RestsAfter (not (s.lid_state ==ℤ pos 0)) lid false s m b
              (λ z. absurd (ground (arith, z))) h)
        | inr n ↦ rw n h
      ]
  receive-Kept left reply (user from (suspend_upd up)) c s m b z a h =
      pause_screen-RestsAfter s.suspended suspend false s m b (λ z. absurd (ground (arith, z))) h
  receive-Kept left reply (user from (scr_to_req up)) c s m b z a h =
      on_scr_to_req-Kept left up c s m b a h
  receive-Kept left reply (user from (no_autocalib_upd up)) c s m b z a h =
      pause_screen-RestsAfter up.new autocalib true s m b (λ z k. refl) h
  receive-Kept left reply (user from (inhibit_upd up)) c s m b z a h =
      pause_screen-RestsAfter (s.inhibited && c.inh_conf.inhibit_bl) inhibit true s m b
        (λ z k. refl) h
  receive-Kept left reply (user from (contrib_req up)) c s m b z a h =
      elim (Bool-cases (validate_contrib c up)) [
        | inl y ↦ rw y (on_contrib_req-Kept up c s m b h)
        | inr n ↦ rw n h
      ]
  receive-Kept left reply _ c s m b z a h = h

  -- What comes one after another, each with the time that is left on the timer, what the call for the
  -- brightness answers, and the shared state of its time, less the brightness, which SCREEN keeps.
  pub handle_all :
      List (ℤ × Option D × Input D × State D)
      → Conf D
      → D
      → ScreenModule D
      → Bool
      → Option (ScreenModule D × D × Bool)
  handle_all [] c br m b = some (m, br, b)
  handle_all ((left, reply, i, s) ∷ is) c br m b =
      let rest = λ (r : ScreenResult D). handle_all is r.1 r.2.screen_br r.0 (watch r.3 b) in
      receive left reply i c (record s { screen_br = br }) m >>= rest

  abbrev pub AllFit : List (ℤ × Option D × Input D × State D) → Type 0
  AllFit [] = Unit
  AllFit ((left, reply, i, s) ∷ is) = InputFits i × InPair s.ac_state × AllFit is

  abbrev pub EndsResting : Option (ScreenModule D × D × Bool) → Type 0
  EndsResting none = ⊥
  EndsResting (some (m, br, b)) = IsResting m.paused_state b br

  -- From a registration of SCREEN's descriptor in step with the reasons for a pause, and a shared brightness
  -- that is 0 while a reason that resets it pauses the module: whatever comes, while the power supply is
  -- known, SCREEN handles it without a read or a write out of bounds, the descriptor is registered
  -- exactly when no reason pauses the module, and the brightness is 0 while no sensor, no calibration,
  -- no timeout, an inhibition or no contribution does.
  pub screen-EndsResting :
      (is : List (ℤ × Option D × Input D × State D)) (c : Conf D) (br : D) (m : ScreenModule D)
      (b : Bool)
      → AllFit is
      → IsResting m.paused_state b br
      → EndsResting (handle_all is c br m b)
  unfolding handle_all
  screen-EndsResting [] c br m b z h = h
  screen-EndsResting ((left, reply, i, s) ∷ is) c br m b (z, a, zs) h =
      go (receive left reply i c (record s { screen_br = br }) m)
        (receive-Kept left reply i c (record s { screen_br = br }) m b z a h)
        (λ c' br' m' b' h'. screen-EndsResting is c' br' m' b' zs h')
    where
      go :
          (o : Option (ScreenResult D))
          → Kept b o
          → ((c : Conf D) (br : D) (m : ScreenModule D) (b : Bool)
              → IsResting m.paused_state b br
              → EndsResting (handle_all is c br m b))
          → EndsResting
              (o >>= λ (r : ScreenResult D). handle_all is r.1 r.2.screen_br r.0 (watch r.3 b))
      go none x rec = x
      go (some (m', c', s', fs)) h' rec = rec c' s'.screen_br m' (watch fs b) h'
