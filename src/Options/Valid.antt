-- ===== src/Options/Valid.antt =====
-- What the checks of the options leave.
use clight.Prelude.{
  ℕ, ◌≡◌, refl, ◌⊎◌, inl, inr, Bool, true, false, List, [], ◌∷◌, map, arith, if◌then◌else◌, All,
  ◌<ℤ◌, ℤ, pos,
}
use clight.Public.{Pair}
use clight.Commons.{
  Float, Curve, BlSmooth, SensorConf, BlConf, KbdConf, GammaConf, DaytimeConf, DimmerConf,
  ScreenConf, Conf,
}
use clight.Pubsub.Validations.{out_of_unit}
use clight.Settings.{lat_undefined, lon_undefined}
use clight.Settings.Read.{CurveMap}
use clight.Options.{
  reset_if, outside, not_positive, unless, check_gamma_conf, cents, bl_default_ac, bl_default_batt,
  kbd_default_ac, kbd_default_batt, wrong_step, wrong_threshold, check_bl_conf, wrong_points,
  check_curve_points, check_sens_conf, check_override_conf, check_kbd_conf, wrong_coordinate,
  check_daytime_conf, check_dim_smooth, check_dim_conf, check_screen_conf, for_wizard, check_conf,
}
use clight.Options.Range.{
  Within, outside-Decides, not_positive-Decides, reset_if-in, GammaFits, InUnit, IsStep,
  IsThreshold, IsCoordinate, out_of_unit-Decides, wrong_step-Decides, wrong_threshold-Decides,
  wrong_coordinate-Decides, wrong_points-Decides, BlFits, CurvesFit, OverridesFit, SensFits,
  DayFits, SmoothFits, DimFits, IsValid, DefaultsFit,
}

reset_if-Within :
    (low high default n : ℤ)
    → Within low high default
    → Within low high (reset_if (outside low high) default n)
reset_if-Within low high default n h =
    reset_if-in (outside low high) (Within low high) default n (outside-Decides low high) h

reset_if-positive : (default n : ℤ) → pos 0 <ℤ default → pos 0 <ℤ reset_if not_positive default n
reset_if-positive default n h =
    reset_if-in not_positive (λ n. pos 0 <ℤ n) default n not_positive-Decides h

-- A section is disabled, or its check has been made.
unless-or :
    {A : Type 0} (disabled : A → Bool) (check : A → A) (P : A → Type 0) (x : A)
    → P (check x)
    → let y = unless (disabled x) check x in (disabled y ≡ true) ⊎ P y
unless-or disabled check P x h = go (disabled x) refl
  where
    go : (b : Bool) → disabled x ≡ b → (disabled (unless b check x) ≡ true) ⊎ P (unless b check x)
    go true e = inl e
    go false e = inr h

check_gamma_conf-GammaFits : (no_bl : Bool) (c : GammaConf) → GammaFits (check_gamma_conf no_bl c)
unfolding check_gamma_conf
check_gamma_conf-GammaFits no_bl c = (
  reset_if-Within (pos 1000) (pos 10000) (pos 6500) c.temp.first (omega arith, omega arith),
  reset_if-Within (pos 1000) (pos 10000) (pos 4000) c.temp.second (omega arith, omega arith),
  reset_if-positive (pos 50) c.trans_step (omega arith),
  reset_if-positive (pos 300) c.trans_timeout (omega arith),
)

module _ {D : Type 0} ⦃f : Float D⦄ where
  module _ (d : DefaultsFit D ⦃f = f⦄) where
    check_bl_conf-BlFits : (c : BlConf D) → BlFits (check_bl_conf c)
    unfolding check_bl_conf
    check_bl_conf-BlFits c = (
      reset_if-in wrong_step IsStep (cents 5) c.smooth.trans_step wrong_step-Decides d.step,
      reset_if-positive (pos 30) c.smooth.trans_timeout (omega arith),
      reset_if-in wrong_threshold IsThreshold (f.literal (pos 0) 1) c.shutter_threshold
          wrong_threshold-Decides d.threshold,
      reset_if-Within (pos 0) (pos 10) (pos 0) c.sync_monitors_delay (omega arith, omega arith),
    )

    check_curve_points-CurvesFit :
        (ac batt : List D) (c : Pair (Curve D))
        → All InUnit ac
        → All InUnit batt
        → CurvesFit (check_curve_points ac batt c)
    unfolding check_curve_points
    check_curve_points-CurvesFit ac batt c h k = (
      reset_if-in wrong_points (All InUnit) ac c.first.points wrong_points-Decides h,
      reset_if-in wrong_points (All InUnit) batt c.second.points wrong_points-Decides k,
    )

    checked_overrides :
        (m : CurveMap D)
        → OverridesFit
            (map (λ (k, curves). (k, check_curve_points bl_default_ac bl_default_batt curves)) m)
    checked_overrides [] = tt
    checked_overrides ((k, c) ∷ m) = (
      check_curve_points-CurvesFit bl_default_ac bl_default_batt c d.bl_ac d.bl_batt,
      checked_overrides m,
    )

    check_sens_conf-SensFits :
        (c : SensorConf D) → SensFits (check_override_conf (check_sens_conf c))
    unfolding check_sens_conf check_override_conf
    check_sens_conf-SensFits c = (
      reset_if-Within (pos 1) (pos 20) (pos 5) c.num_captures.first (omega arith, omega arith),
      reset_if-Within (pos 1) (pos 20) (pos 5) c.num_captures.second (omega arith, omega arith),
      check_curve_points-CurvesFit bl_default_ac bl_default_batt c.default_curve d.bl_ac d.bl_batt,
      checked_overrides c.specific_curves,
    )

    check_kbd_conf-CurvesFit : (c : KbdConf D) → CurvesFit (check_kbd_conf c).curve
    unfolding check_kbd_conf
    check_kbd_conf-CurvesFit c =
        check_curve_points-CurvesFit kbd_default_ac kbd_default_batt c.curve d.kbd_ac d.kbd_batt

    check_daytime_conf-DayFits :
        (strptime_r : List ℕ → Bool) (c : DaytimeConf D) → DayFits (check_daytime_conf strptime_r c)
    unfolding check_daytime_conf
    check_daytime_conf-DayFits strptime_r c = (
      reset_if-positive (pos 1800) c.event_duration (omega arith),
      reset_if-in (wrong_coordinate 90 lat_undefined) (IsCoordinate 90 lat_undefined) lat_undefined
          c.loc.lat (wrong_coordinate-Decides 90 lat_undefined) d.lat,
      reset_if-in (wrong_coordinate 180 lon_undefined) (IsCoordinate 180 lon_undefined)
          lon_undefined c.loc.lon (wrong_coordinate-Decides 180 lon_undefined) d.lon,
    )

    smooth-fits : (s : BlSmooth D) → SmoothFits (check_dim_smooth s)
    smooth-fits s = (
      reset_if-in wrong_step IsStep (cents 5) s.trans_step wrong_step-Decides d.step,
      reset_if-positive (pos 30) s.trans_timeout (omega arith),
    )

    check_dim_conf-DimFits : (no_bl : Bool) (c : DimmerConf D) → DimFits (check_dim_conf no_bl c)
    unfolding check_dim_conf
    check_dim_conf-DimFits no_bl c = (
      reset_if-in out_of_unit InUnit (cents 20) c.dimmed_pct out_of_unit-Decides d.fifth,
      smooth-fits c.smooth_enter,
      smooth-fits c.smooth_exit,
    )

    check_screen_conf-contrib :
        (no_bl : Bool) (c : ScreenConf D) → InUnit (check_screen_conf no_bl c).contrib
    unfolding check_screen_conf
    check_screen_conf-contrib no_bl c =
        reset_if-in out_of_unit InUnit (cents 20) c.contrib out_of_unit-Decides d.fifth

    -- The sensor's section is disabled with the backlight's.
    sensor-or :
        (b : BlConf D) (s : SensorConf D)
        → ((unless b.disabled check_bl_conf b).disabled ≡ true)
          ⊎ SensFits (unless b.disabled (λ x. check_override_conf (check_sens_conf x)) s)
    sensor-or b s = go b.disabled refl
      where
        go :
            (x : Bool)
            → b.disabled ≡ x
            → ((unless x check_bl_conf b).disabled ≡ true)
              ⊎ SensFits (unless x (λ y. check_override_conf (check_sens_conf y)) s)
        go true e = inl e
        go false e = inr (check_sens_conf-SensFits s)

    -- Where the defaults that are doubles are in range, and whatever the features of clightd
    -- disable: after the check of any configuration, the delay of a resumption is from 0 to 30 seconds,
    -- the place and the duration of events are in range, and each other section with ranges is disabled
    -- or has its values in range: steps of transitions, thresholds, numbers of captures, points of curves,
    -- those of single monitors included, temperatures, contributions, and timeouts of transitions.
    pub check_conf-IsValid :
        (strptime_r : List ℕ → Bool) (features : Conf D → Conf D) (c : Conf D)
        → IsValid (check_conf strptime_r features c)
    unfolding check_conf
    check_conf-IsValid strptime_r features c0 =
        let c = if c0.wizard then for_wizard c0 else features c0 in
        let no_bl = c.bl_conf.disabled in
        record {
          resumedelay =
              reset_if-Within (pos 0) (pos 30) (pos 0) c.resumedelay (omega arith, omega arith);
          backlight =
              unless-or (λ (b : BlConf D). b.disabled) check_bl_conf BlFits c.bl_conf
                (check_bl_conf-BlFits c.bl_conf);
          sensor = sensor-or c.bl_conf c.sens_conf;
          keyboard =
              unless-or (λ (k : KbdConf D). k.disabled) check_kbd_conf (λ k. CurvesFit k.curve)
                c.kbd_conf (check_kbd_conf-CurvesFit c.kbd_conf);
          gamma =
              unless-or (λ (g : GammaConf). g.disabled) (check_gamma_conf no_bl) GammaFits
                c.gamma_conf (check_gamma_conf-GammaFits no_bl c.gamma_conf);
          daytime = check_daytime_conf-DayFits strptime_r c.day_conf;
          dimmer =
              unless-or (λ (x : DimmerConf D). x.disabled) (check_dim_conf no_bl) DimFits c.dim_conf
                (check_dim_conf-DimFits no_bl c.dim_conf);
          screen =
              unless-or (λ (x : ScreenConf D). x.disabled) (check_screen_conf no_bl)
                (λ x. InUnit x.contrib) c.screen_conf
                (check_screen_conf-contrib no_bl c.screen_conf);
        }
