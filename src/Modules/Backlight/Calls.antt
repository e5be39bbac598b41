-- ===== src/Modules/Backlight/Calls.antt =====
-- Captures, levels, curves and signals return, and keep the stack, the registration of the timer and the curves
-- right.
use clight.Prelude.{
  ◌<◌, ◌≡◌, refl, ◌∙◌, inl, inr, Bool, true, false, not, ◌&&◌, ◌||◌, Option, none, some, List, [],
  ◌∷◌, ◌++◌, if◌then◌else◌, Bool-cases, ◌>>=◌, length, ℤ, pos,
}
use clight.Public.{at, InPair, at_total, ambient_br_upd}
use clight.Commons.{
  Float, Curve, Conf, State, bl_fd, backlight_set, sensor_capture, Effect, publish, bus, Libmodule,
}
use clight.Utils.Timer.{set_timeout}
use clight.Utils.MyMath.{of_int, clamp, larger, smaller, Libm}
use clight.Modules.Keyboard.Points.{ends_total, get_value_from_curve_total}
use clight.Modules.Backlight.{get_current_timeout, BlModule, BlMaps, BlReplies}
use clight.Modules.Backlight.Levels.{
  plain_level, level_request, capture_frames_brightness, new_backlight, set_new_backlight,
  do_capture, publish_bl_upd, set_backlight_level,
}
use clight.Modules.Backlight.Handlers.{and_levels}
use clight.Modules.Backlight.Synced.{act, act-append, Steady, append-Steady}
use clight.Modules.Backlight.Kept.{HaveDefaults, IsKnown, get_current_timeout_total, Kept}

module _ {D : Type 0} ⦃f : Float D⦄ where
  default_curve_at :
      (c : Conf D) (i : ℤ)
      → InPair i
      → HaveDefaults c
      → (curve : Curve D) × (at c.sens_conf.default_curve i ≡ some curve)
        × (0 < length curve.points)
  default_curve_at c i (inl e) g = (c.sens_conf.default_curve.first, rw e, g.0)
  default_curve_at c i (inr e) g = (c.sens_conf.default_curve.second, rw e, g.1)

  new_backlight_total :
      (libm : Libm D) (c : Conf D) (s : State D)
      → InPair s.ac_state
      → HaveDefaults c
      → (new : D) × (new_backlight libm c s ≡ some new)
  unfolding new_backlight
  new_backlight_total libm c s a g =
      let (curve, e, p) = default_curve_at c s.ac_state a g in
      let (v, e') = get_value_from_curve_total libm s.ambient_br curve p in
      let (ab, e'') = ends_total curve p in
      let contrib = c.screen_conf.contrib in
      let dark = f.sub (f.add v contrib) (f.mul (f.mul (of_int (pos 2)) contrib) s.screen_br) in
      (
        if f.eq s.screen_br (of_int (pos 0))
            then v
            else clamp dark (larger ab.1 ab.0) (smaller ab.0 ab.1),
        rw (e, e', e''),
      )

module _ {S : Type 0} (lib : Libmodule S) where
  -- Calls that leave the stack and the registration alone.
  abbrev pub IsNeutral : {D : Type 0} → List (Effect D) → Type 0
  IsNeutral es = (v : S × Bool) → act lib es v ≡ v

  IsNeutral-append :
      {D : Type 0} (xs ys : List (Effect D)) → IsNeutral xs → IsNeutral ys → IsNeutral (xs ++ ys)
  IsNeutral-append xs ys h k v = act-append lib xs ys v ∙ k (act lib xs v) ∙ h v

module _ {D S : Type 0} ⦃f : Float D⦄ (lib : Libmodule S) (libm : Libm D) where
  set_new_backlight_total :
      (c : Conf D) (s : State D)
      → InPair s.ac_state
      → HaveDefaults c
      → (es : List (Effect D)) × (set_new_backlight libm c s ≡ some es) × IsNeutral lib es
  unfolding set_new_backlight
  set_new_backlight_total c s a g =
      let (new, e) = new_backlight_total libm c s a g in
      let there = not (f.eq new s.current_bl_pct) || c.verbose in
      (
        if there then publish (level_request new) ∷ [] else [],
        rw e,
        λ v. elim (Bool-cases there) [ inl y ↦ rw y refl | inr n ↦ rw n refl ],
      )

  capture_total :
      (mean : List D → D) (reply : Option (List D)) (c : Conf D) (s : State D)
      → IsKnown s
      → (s' : State D) × (es : List (Effect D)) × (ok : Bool) × (capture_frames_brightness mean
            reply c s
          ≡ some (s', es, ok))
        × IsNeutral lib es
        × IsKnown s'
  unfolding capture_frames_brightness
  capture_total mean none c s k =
      let (n, e) = at_total c.sens_conf.num_captures s.ac_state k.0 in
      (s, bus (sensor_capture n) ∷ [], false, rw e, λ v. refl, k)
  capture_total mean (some xs) c s k =
      let (n, e) = at_total c.sens_conf.num_captures s.ac_state k.0 in
      (
        record s { ambient_br = mean xs },
        bus (sensor_capture n) ∷ publish (ambient_br_upd (plain_level s.ambient_br (mean xs))) ∷ [],
        true,
        rw e,
        λ v. refl,
        k,
      )

  rearm_total :
      (reset : Bool) (c : Conf D) (s : State D)
      → IsKnown s
      → (es : List (Effect D)) × ((if reset
            then (get_current_timeout c s >>= λ t. some (set_timeout t (pos 0) bl_fd ∷ []))
            else some [])
          ≡ some es)
        × IsNeutral lib es
  unfolding set_timeout
  rearm_total false c s k = ([], refl, λ v. refl)
  rearm_total true c s k =
      let (t, e) = get_current_timeout_total c s k in
      (set_timeout t (pos 0) bl_fd ∷ [], rw e, λ v. refl)

  level_total :
      (b : Bool) (c : Conf D) (s : State D)
      → IsKnown s
      → HaveDefaults c
      → (es : List (Effect D)) × ((if b then set_new_backlight libm c s else some []) ≡ some es)
        × IsNeutral lib es
  level_total false c s k g = ([], refl, λ v. refl)
  level_total true c s k g = set_new_backlight_total c s k.0 g

  pub set_backlight_level_total :
      (maps : BlMaps D) (ok : Bool) (pct : D) (is_smooth : Bool) (step : D) (timeout : ℤ)
      (c : Conf D) (s : State D) (m : BlModule D)
      → HaveDefaults c
      → (es : List (Effect D)) × (set_backlight_level libm maps ok pct is_smooth step timeout c s m
          ≡ some es)
        × IsNeutral lib es
  unfolding set_backlight_level
  set_backlight_level_total maps ok pct is_smooth step timeout c s m g =
      let step' = if is_smooth then step else of_int (pos 0) in
      let timeout' = if is_smooth then timeout else pos 0 in
      let announced : List (Effect D) =
        if ok && is_smooth then publish_bl_upd pct true step' timeout' s ∷ [] else [] in
      (
        bus (backlight_set pct step' timeout') ∷ announced,
        rw g.2,
        λ v. elim (Bool-cases (ok && is_smooth)) [ inl y ↦ rw y refl | inr n ↦ rw n refl ],
      )

  module _ (base : S) (w : S × Bool) where
    pub set_new_backlight-Kept :
        (c : Conf D) (s : State D) (m : BlModule D)
        → IsKnown s
        → HaveDefaults c
        → Steady lib base m.paused_state w
        → Kept lib base w (and_levels c s m (set_new_backlight libm c s))
    set_new_backlight-Kept c s m k g h =
        let (es, e, q) = set_new_backlight_total c s k.0 g in
        rw e (append-Steady lib base m [] es w q h, g)

    pub do_capture-Kept :
        (mean : List D → D) (replies : BlReplies D) (reset only : Bool) (c : Conf D) (s : State D)
        (m : BlModule D)
        → IsKnown s
        → HaveDefaults c
        → Steady lib base m.paused_state w
        → Kept lib base w (do_capture libm mean replies reset only c s m)
    unfolding do_capture
    do_capture-Kept mean replies reset only c s m k g h =
        let (s', es, ok, e, q, k') = capture_total mean replies.intensities c s k in
        let (level, e', q') =
          level_total (ok && (f.le c.bl_conf.shutter_threshold s'.ambient_br && not only)) c s' k'
            g in
        let (more, e'', q'') = rearm_total reset c s' k' in
        let all =
          IsNeutral-append lib es (level ++ more) q (IsNeutral-append lib level more q' q'') in
        rw (e, e', e'') (append-Steady lib base m [] (es ++ (level ++ more)) w all h, g)

    pub set_backlight_level-Kept :
        (maps : BlMaps D) (ok : Bool) (pct : D) (is_smooth : Bool) (step : D) (timeout : ℤ)
        (c : Conf D) (s : State D) (m : BlModule D)
        → HaveDefaults c
        → Steady lib base m.paused_state w
        → Kept lib base w
            (and_levels c s m (set_backlight_level libm maps ok pct is_smooth step timeout c s m))
    set_backlight_level-Kept maps ok pct is_smooth step timeout c s m g h =
        let (es, e, q) = set_backlight_level_total maps ok pct is_smooth step timeout c s m g in
        rw e (append-Steady lib base m [] es w q h, g)
