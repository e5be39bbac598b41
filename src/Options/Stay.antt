-- ===== src/Options/Stay.antt =====
-- conf/opts.c: what is in range in a single section is left as it is.
use clight.Prelude.{
  ℕ, ◌≡◌, refl, ◌⊎◌, inl, inr, Bool, true, false, not, ◌&&◌, ◌||◌, List, [], ◌∷◌, map, arith,
  Bool-cases, All, ◌<ℤ◌, leb_ℤ, ℤ, pos,
}
use clight.Public.{Pair}
use clight.Commons.{
  Float, Curve, BlSmooth, SensorConf, BlConf, KbdConf, GammaConf, DaytimeConf, DimmerConf, DpmsConf,
  ScreenConf, InhConf,
}
use clight.Pubsub.Validations.{out_of_unit}
use clight.Settings.{lat_undefined, lon_undefined}
use clight.Settings.Load.{is_empty}
use clight.Settings.Read.{CurveMap}
use clight.Options.{
  reset_if, outside, not_positive, unless, check_gamma_conf, check_inh_conf, cents, bl_default_ac,
  bl_default_batt, kbd_default_ac, kbd_default_batt, wrong_step, wrong_threshold, check_bl_conf,
  wrong_points, check_curve_points, check_sens_conf, check_override_conf, check_kbd_conf,
  wrong_coordinate, check_daytime_conf, check_dim_smooth, check_dim_conf, check_dpms_conf,
  check_screen_conf,
}
use clight.Options.Range.{
  Within, Decides, outside-Decides, not_positive-Decides, reset_if-keeps, GammaFits, zero_d, InUnit,
  IsStep, IsThreshold, IsCoordinate, out_of_unit-Decides, wrong_step-Decides,
  wrong_threshold-Decides, wrong_coordinate-Decides, wrong_points-Decides, BlFits, CurvesFit,
  OverridesFit, SensFits, DayFits, SmoothFits, DimFits,
}

pub stays-outside :
    (low high default n : ℤ) → Within low high n → reset_if (outside low high) default n ≡ n
stays-outside low high default n h =
    reset_if-keeps (outside low high) (Within low high) default n (outside-Decides low high) h

pub stays-positive : (default n : ℤ) → pos 0 <ℤ n → reset_if not_positive default n ≡ n
stays-positive default n h =
    reset_if-keeps not_positive (λ n. pos 0 <ℤ n) default n not_positive-Decides h

-- A section that is disabled, or that its check leaves, stays.
pub stays-unless :
    {A : Type 0} (disabled : Bool) (check : A → A) (P : A → Type 0) (x : A)
    → (disabled ≡ true) ⊎ P x
    → (P x → check x ≡ x)
    → unless disabled check x ≡ x
stays-unless disabled check P x (inl e) k = rw e
stays-unless disabled check P x (inr h) k = elim (Bool-cases disabled) [
  | inl y ↦ rw y
  | inr n ↦ rw n (k h)
]

pub check_gamma_conf-keeps :
    (no_bl : Bool) (c : GammaConf)
    → GammaFits c
    → (not no_bl && c.ambient_gamma) ≡ c.ambient_gamma
    → check_gamma_conf no_bl c ≡ c
unfolding check_gamma_conf
check_gamma_conf-keeps no_bl c (d, n, s, t) a = rw (
  a,
  stays-outside (pos 1000) (pos 10000) (pos 6500) c.temp.first d,
  stays-outside (pos 1000) (pos 10000) (pos 4000) c.temp.second n,
  stays-positive (pos 50) c.trans_step s,
  stays-positive (pos 300) c.trans_timeout t,
)

pub check_inh_conf-keeps :
    (unneeded : Bool) (c : InhConf)
    → (unneeded ≡ false)
      ⊎ ((c.disabled ≡ true) × (c.inhibit_docked ≡ false) × (c.inhibit_pm ≡ false))
    → check_inh_conf unneeded c ≡ c
unfolding check_inh_conf
check_inh_conf-keeps unneeded c (inl e) = rw e
check_inh_conf-keeps unneeded c (inr (a, b, d)) = elim (Bool-cases unneeded) [
  | inl y ↦ rw y (off c.disabled c.inhibit_docked c.inhibit_pm a b d)
  | inr n ↦ rw n
]
  where
    off :
        (x y z : Bool)
        → x ≡ true
        → y ≡ false
        → z ≡ false
        → record c { disabled = true; inhibit_docked = false; inhibit_pm = false }
          ≡ record c { disabled = x; inhibit_docked = y; inhibit_pm = z }
    off x y z a b d = rw (a, b, d)

-- A time of an event is empty, or can be read.
abbrev pub IsTime : (List ℕ → Bool) → List ℕ → Type 0
IsTime strptime_r s = (is_empty s ≡ true) ⊎ (strptime_r s ≡ true)

event-Decides :
    (strptime_r : List ℕ → Bool)
    → Decides (λ s. not (is_empty s) && not (strptime_r s)) (IsTime strptime_r)
event-Decides strptime_r s = (λ h. ground (arith, h), λ h. ground (arith, h))

module _ {D : Type 0} ⦃f : Float D⦄ where
  stays :
      (wrong : D → Bool) (P : D → Type 0) (default x : D)
      → Decides wrong P
      → P x
      → reset_if wrong default x ≡ x
  stays wrong P default x d h = reset_if-keeps wrong P default x d h

  pub check_bl_conf-keeps : (c : BlConf D) → BlFits c → check_bl_conf c ≡ c
  unfolding check_bl_conf
  check_bl_conf-keeps c (s, t, h, d) = rw (
    stays wrong_step IsStep (cents 5) c.smooth.trans_step wrong_step-Decides s,
    stays-positive (pos 30) c.smooth.trans_timeout t,
    stays wrong_threshold IsThreshold zero_d c.shutter_threshold wrong_threshold-Decides h,
    stays-outside (pos 0) (pos 10) (pos 0) c.sync_monitors_delay d,
  )

  pub check_curve_points-keeps :
      (ac batt : List D) (c : Pair (Curve D)) → CurvesFit c → check_curve_points ac batt c ≡ c
  unfolding check_curve_points
  check_curve_points-keeps ac batt c (h, k) = rw (
    reset_if-keeps wrong_points (All InUnit) ac c.first.points wrong_points-Decides h,
    reset_if-keeps wrong_points (All InUnit) batt c.second.points wrong_points-Decides k,
  )

  overrides_stay :
      (m : CurveMap D)
      → OverridesFit m
      → map (λ (k, curves). (k, check_curve_points bl_default_ac bl_default_batt curves)) m ≡ m
  overrides_stay [] h = refl
  overrides_stay ((k, c) ∷ m) (h, hs) =
      let here = check_curve_points-keeps bl_default_ac bl_default_batt c h in
      let there = overrides_stay m hs in rw (here, there)

  pub check_sens_conf-keeps :
      (c : SensorConf D) → SensFits c → check_override_conf (check_sens_conf c) ≡ c
  unfolding check_sens_conf check_override_conf
  check_sens_conf-keeps c (a, b, d, o) = rw (
    stays-outside (pos 1) (pos 20) (pos 5) c.num_captures.first a,
    stays-outside (pos 1) (pos 20) (pos 5) c.num_captures.second b,
    check_curve_points-keeps bl_default_ac bl_default_batt c.default_curve d,
    overrides_stay c.specific_curves o,
  )

  pub check_kbd_conf-keeps : (c : KbdConf D) → CurvesFit c.curve → check_kbd_conf c ≡ c
  unfolding check_kbd_conf
  check_kbd_conf-keeps c h = rw (check_curve_points-keeps kbd_default_ac kbd_default_batt c.curve h)

  pub check_daytime_conf-keeps :
      (strptime_r : List ℕ → Bool) (c : DaytimeConf D)
      → DayFits c
      → IsTime strptime_r c.day_events.first
      → IsTime strptime_r c.day_events.second
      → check_daytime_conf strptime_r c ≡ c
  unfolding check_daytime_conf
  check_daytime_conf-keeps strptime_r c (t, lat, lon) e e' =
      let wrong : List ℕ → Bool = λ s. not (is_empty s) && not (strptime_r s) in
      rw (
        stays-positive (pos 1800) c.event_duration t,
        stays (wrong_coordinate 90 lat_undefined) (IsCoordinate 90 lat_undefined) lat_undefined
            c.loc.lat (wrong_coordinate-Decides 90 lat_undefined) lat,
        stays (wrong_coordinate 180 lon_undefined) (IsCoordinate 180 lon_undefined) lon_undefined
            c.loc.lon (wrong_coordinate-Decides 180 lon_undefined) lon,
        reset_if-keeps wrong (IsTime strptime_r) [] c.day_events.first (event-Decides strptime_r) e,
        reset_if-keeps wrong (IsTime strptime_r) [] c.day_events.second (event-Decides strptime_r)
            e',
      )

  smooth_stays : (s : BlSmooth D) → SmoothFits s → check_dim_smooth s ≡ s
  smooth_stays s (h, t) = rw (
    stays wrong_step IsStep (cents 5) s.trans_step wrong_step-Decides h,
    stays-positive (pos 30) s.trans_timeout t,
  )

  pub check_dim_conf-keeps :
      (no_bl : Bool) (c : DimmerConf D)
      → DimFits c
      → (no_bl || c.disabled) ≡ c.disabled
      → check_dim_conf no_bl c ≡ c
  unfolding check_dim_conf
  check_dim_conf-keeps no_bl c (p, h, k) d = rw (
    d,
    stays out_of_unit InUnit (cents 20) c.dimmed_pct out_of_unit-Decides p,
    smooth_stays c.smooth_enter h,
    smooth_stays c.smooth_exit k,
  )

  -- The screen is not switched off before it is dimmed.
  abbrev pub IsAfter : DimmerConf D → DpmsConf → Type 0
  IsAfter dim c =
      (dim.disabled ≡ true)
      ⊎ ((dim.timeout.first <ℤ c.timeout.first) × (dim.timeout.second <ℤ c.timeout.second))

  pub check_dpms_conf-keeps :
      (dim : DimmerConf D) (c : DpmsConf) → IsAfter dim c → check_dpms_conf dim c ≡ c
  unfolding check_dpms_conf
  check_dpms_conf-keeps dim c (inl e) = rw e
  check_dpms_conf-keeps dim c (inr (h, k)) =
      let first : leb_ℤ c.timeout.first dim.timeout.first ≡ false = ground (arith, h) in
      let second : leb_ℤ c.timeout.second dim.timeout.second ≡ false = ground (arith, k) in
      elim (Bool-cases dim.disabled) [ inl y ↦ rw y | inr n ↦ rw (n, reset_if, first, second) ]

  pub check_screen_conf-keeps :
      (no_bl : Bool) (c : ScreenConf D)
      → InUnit c.contrib
      → (no_bl || c.disabled) ≡ c.disabled
      → check_screen_conf no_bl c ≡ c
  unfolding check_screen_conf
  check_screen_conf-keeps no_bl c h d =
      rw (d, stays out_of_unit InUnit (cents 20) c.contrib out_of_unit-Decides h)
