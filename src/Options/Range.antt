-- ===== src/Options/Range.antt =====
-- conf/opts.c: the ranges of the options, and that the checks of single values decide them.
use clight.Prelude.{
  ℕ, ◌≡◌, refl, ◌⊎◌, inl, inr, Bool, true, false, ◌||◌, [], ◌∷◌, arith, Bool-cases, All, ◌≤ℤ◌, ◌<ℤ◌,
  ℤ, pos,
}
use clight.Public.{Pair}
use clight.Commons.{
  Float, Curve, BlSmooth, SensorConf, BlConf, GammaConf, DaytimeConf, DimmerConf, Conf,
}
use clight.Utils.MyMath.{of_int}
use clight.Pubsub.Validations.{out_of_unit}
use clight.Settings.{lat_undefined, lon_undefined}
use clight.Settings.Read.{CurveMap}
use clight.Options.{
  reset_if, outside, not_positive, cents, bl_default_ac, bl_default_batt, kbd_default_ac,
  kbd_default_batt, wrong_step, wrong_threshold, wrong_points, wrong_coordinate,
}

abbrev pub Within : ℤ → ℤ → ℤ → Type 0
Within low high n = (low ≤ℤ n) × (n ≤ℤ high)

-- The test fails just where the value is in range.
abbrev pub Decides : {A : Type 0} → (A → Bool) → (A → Type 0) → Type 0
Decides wrong P = (x : _) → (wrong x ≡ false → P x) × (P x → wrong x ≡ false)

pub outside-Decides : (low high : ℤ) → Decides (outside low high) (Within low high)
outside-Decides low high n =
    (λ h. (ground (arith, h), ground (arith, h)), λ h. ground (arith, h.0, h.1))

pub not_positive-Decides : Decides not_positive (λ n. pos 0 <ℤ n)
not_positive-Decides n = (λ h. ground (arith, h), λ h. ground (arith, h))

pub or-Decides :
    {A : Type 0} (v w : A → Bool) → Decides (λ x. v x || w x) (λ x. (v x ≡ false) × (w x ≡ false))
or-Decides v w x = (λ h. (ground (arith, h), ground (arith, h)), λ h. ground (arith, h.0, h.1))

-- A value that is checked is in range, if the default is; one that is in range stays.
pub reset_if-in :
    {A : Type 0} (wrong : A → Bool) (P : A → Type 0) (default x : A)
    → Decides wrong P
    → P default
    → P (reset_if wrong default x)
reset_if-in wrong P default x d h = elim (Bool-cases (wrong x)) [
  | inl y ↦ rw (reset_if, y) h
  | inr n ↦ rw (reset_if, n) ((d x).0 n)
]

pub reset_if-keeps :
    {A : Type 0} (wrong : A → Bool) (P : A → Type 0) (default x : A)
    → Decides wrong P
    → P x
    → reset_if wrong default x ≡ x
reset_if-keeps wrong P default x d h = let n = (d x).1 h in rw (reset_if, n)

abbrev pub GammaFits : GammaConf → Type 0
GammaFits c =
    Within (pos 1000) (pos 10000) c.temp.first
    × Within (pos 1000) (pos 10000) c.temp.second
    × (pos 0 <ℤ c.trans_step)
    × (pos 0 <ℤ c.trans_timeout)

module _ {D : Type 0} ⦃f : Float D⦄ where
  abbrev pub zero_d : D
  zero_d = f.literal (pos 0) 1

  abbrev pub one_d : D
  one_d = f.literal (pos 1) 1

  -- From 0 to 1.
  abbrev pub InUnit : D → Type 0
  InUnit p = (f.lt p (of_int (pos 0)) ≡ false) × (f.lt (of_int (pos 1)) p ≡ false)

  -- A step: above 0 and below 1.
  abbrev pub IsStep : D → Type 0
  IsStep s = (f.le s zero_d ≡ false) × (f.le one_d s ≡ false)

  -- A threshold: from 0 on and below 1.
  abbrev pub IsThreshold : D → Type 0
  IsThreshold t = (f.lt t zero_d ≡ false) × (f.le one_d t ≡ false)

  -- A coordinate: at most `max` on either side, or undefined.
  abbrev pub IsCoordinate : ℕ → D → D → Type 0
  IsCoordinate max undefined x =
      (f.lt (f.literal (pos max) 1) (f.fabs x) ≡ false) ⊎ (f.eq x undefined ≡ true)

  pub out_of_unit-Decides : Decides (out_of_unit ⦃f = f⦄) InUnit
  out_of_unit-Decides = or-Decides (λ p. f.lt p (of_int (pos 0))) (λ p. f.lt (of_int (pos 1)) p)

  pub wrong_step-Decides : Decides (wrong_step ⦃f = f⦄) IsStep
  wrong_step-Decides = or-Decides (λ s. f.le s zero_d) (λ s. f.le one_d s)

  pub wrong_threshold-Decides : Decides (wrong_threshold ⦃f = f⦄) IsThreshold
  wrong_threshold-Decides = or-Decides (λ t. f.lt t zero_d) (λ t. f.le one_d t)

  pub wrong_coordinate-Decides :
      (max : ℕ) (undefined : D)
      → Decides (wrong_coordinate max undefined) (IsCoordinate max undefined)
  wrong_coordinate-Decides max undefined x = (λ h. ground (arith, h), λ h. ground (arith, h))

  pub wrong_points-Decides : Decides (wrong_points ⦃f = f⦄) (All InUnit)
  wrong_points-Decides [] = (λ h. tt, λ h. refl)
  wrong_points-Decides (p ∷ ps) =
      let (tail_fits, tail_stays) = wrong_points-Decides ps in
      let (fits, stays) = out_of_unit-Decides p in
      let (both_false, either_false) = or-Decides (λ x. out_of_unit p) wrong_points ps in
      (
        λ h. (fits (both_false h).0, tail_fits (both_false h).1),
        λ h. either_false (stays h.0, tail_stays h.1),
      )

  abbrev pub BlFits : BlConf D → Type 0
  BlFits c =
      IsStep c.smooth.trans_step
      × (pos 0 <ℤ c.smooth.trans_timeout)
      × IsThreshold c.shutter_threshold
      × Within (pos 0) (pos 10) c.sync_monitors_delay

  abbrev pub CurvesFit : Pair (Curve D) → Type 0
  CurvesFit c = All InUnit c.first.points × All InUnit c.second.points

  abbrev pub OverridesFit : CurveMap D → Type 0
  OverridesFit m = All (λ e. CurvesFit e.1) m

  abbrev pub SensFits : SensorConf D → Type 0
  SensFits c =
      Within (pos 1) (pos 20) c.num_captures.first
      × Within (pos 1) (pos 20) c.num_captures.second
      × CurvesFit c.default_curve
      × OverridesFit c.specific_curves

  abbrev pub DayFits : DaytimeConf D → Type 0
  DayFits c =
      (pos 0 <ℤ c.event_duration)
      × IsCoordinate 90 lat_undefined c.loc.lat
      × IsCoordinate 180 lon_undefined c.loc.lon

  abbrev pub SmoothFits : BlSmooth D → Type 0
  SmoothFits s = IsStep s.trans_step × (pos 0 <ℤ s.trans_timeout)

  abbrev pub DimFits : DimmerConf D → Type 0
  DimFits c = InUnit c.dimmed_pct × SmoothFits c.smooth_enter × SmoothFits c.smooth_exit

  -- Each section is disabled, or its values are in range.
  pub record IsValid (c : Conf D) : Type 0 where
    pub resumedelay : Within (pos 0) (pos 30) c.resumedelay
    pub backlight : (c.bl_conf.disabled ≡ true) ⊎ BlFits c.bl_conf
    pub sensor : (c.bl_conf.disabled ≡ true) ⊎ SensFits c.sens_conf
    pub keyboard : (c.kbd_conf.disabled ≡ true) ⊎ CurvesFit c.kbd_conf.curve
    pub gamma : (c.gamma_conf.disabled ≡ true) ⊎ GammaFits c.gamma_conf
    pub daytime : DayFits c.day_conf
    pub dimmer : (c.dim_conf.disabled ≡ true) ⊎ DimFits c.dim_conf
    pub screen : (c.screen_conf.disabled ≡ true) ⊎ InUnit c.screen_conf.contrib

-- The defaults that are doubles are in range.
pub record DefaultsFit (D : Type 0) ⦃f : Float D⦄ : Type 0 where
  pub step : IsStep ⦃f = f⦄ (cents 5)
  pub threshold : IsThreshold ⦃f = f⦄ zero_d
  pub fifth : InUnit ⦃f = f⦄ (cents 20)
  pub bl_ac : All (InUnit ⦃f = f⦄) bl_default_ac
  pub bl_batt : All (InUnit ⦃f = f⦄) bl_default_batt
  pub kbd_ac : All (InUnit ⦃f = f⦄) kbd_default_ac
  pub kbd_batt : All (InUnit ⦃f = f⦄) kbd_default_batt
  pub lat : IsCoordinate ⦃f = f⦄ 90 lat_undefined lat_undefined
  pub lon : IsCoordinate ⦃f = f⦄ 180 lon_undefined lon_undefined
