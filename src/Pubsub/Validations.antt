-- ===== src/Pubsub/Validations.antt =====
-- pubsub/validations.c: the checks of requests. Some of them fill in a request's defaults, so they
-- return the request too; `none` is a read out of bounds.
use clight.Prelude.{
  ℕ, zero, suc, bit_and, Bool, true, false, not, ◌&&◌, ◌||◌, Option, none, some, List, [], ◌∷◌, ltb,
  ◌==◌, if◌then◌else◌, eqb_bool, ◌>>=◌, length, pos_part, minus_one, ltb_ℤ, leb_ℤ, ◌==ℤ◌, ℤ, pos,
  negsuc,
}
use clight.Public.{
  day, size_states, on_ac, size_ac, display_on, display_off, display_size, lid_open, lid_docked, at,
  LocUpd, UpowerUpd, LidUpd, InhibitUpd, PmUpd, SuspendUpd, DisplayUpd, EvtUpd, TempUpd, TimeoutUpd,
  CurveUpd, CalibUpd, BlUpd, ContribUpd, AmbgammaUpd,
}
use clight.Commons.{max_size_points, Float, BlSmooth, Conf, State}
use clight.Utils.MyMath.{of_int, get_distance, Libm}

module _ {D : Type 0} where
  unfoldable pub validate_upower : State D → UpowerUpd → Bool
  validate_upower s up = not (s.ac_state ==ℤ up.new) && (leb_ℤ on_ac up.new && ltb_ℤ up.new size_ac)

  unfoldable pub validate_timeout : State D → TimeoutUpd → Bool × TimeoutUpd
  validate_timeout s up =
      let up' = record up {
        state = if up.state ==ℤ minus_one then s.ac_state else up.state;
        daytime = if up.daytime ==ℤ minus_one then s.day_time else up.daytime;
      } in
      (leb_ℤ on_ac up'.state && ltb_ℤ up'.state size_ac, up')

  unfoldable pub validate_inhibit : State D → InhibitUpd → Bool
  validate_inhibit s up = not (eqb_bool s.inhibited up.new)

  unfoldable pub validate_temp : Conf D → State D → TempUpd → Option (Bool × TempUpd)
  validate_temp c s up = do
    let g = c.gamma_conf
    let daytime = if up.daytime ==ℤ minus_one then s.day_time else up.daytime
    let from_conf = up.smooth ==ℤ minus_one
    let smooth = if from_conf then (if g.no_smooth then pos 0 else pos 1) else up.smooth
    let step = if from_conf then g.trans_step else up.step
    let timeout = if from_conf then g.trans_timeout else up.timeout
    new ← (if up.new ==ℤ pos 0 then at g.temp daytime else some up.new)
    some (
      leb_ℤ (pos 1000) new
          && (leb_ℤ new (pos 10000) && (leb_ℤ day daytime && ltb_ℤ daytime size_states)),
      record up { daytime = daytime; smooth = smooth; step = step; timeout = timeout; new = new },
    )

  unfoldable pub validate_autocalib : Conf D → CalibUpd → Bool
  validate_autocalib c up = not (eqb_bool c.bl_conf.no_auto_calib up.new)

  unfoldable pub validate_display : State D → DisplayUpd → Bool
  validate_display s up =
      leb_ℤ (pos display_on) up.new
      && (ltb_ℤ up.new (pos display_size)
          && ((not (bit_and s.display_state display_off == 0) && (up.new ==ℤ pos display_on))
              || (bit_and s.display_state display_off == 0)
                && not (up.new ==ℤ pos s.display_state)))

  unfoldable pub validate_lid : State D → LidUpd → Bool
  validate_lid s up =
      leb_ℤ lid_open up.new && (leb_ℤ up.new lid_docked && not (s.lid_state ==ℤ up.new))

  unfoldable pub validate_pm : State D → PmUpd → Bool
  validate_pm s up = not (eqb_bool up.new s.pm_inhibited)

  unfoldable pub validate_suspend : State D → SuspendUpd → Bool
  validate_suspend s up = not (eqb_bool up.new s.suspended)

  unfoldable pub validate_ambgamma : Conf D → AmbgammaUpd → Bool
  validate_ambgamma c up = not (eqb_bool up.new c.gamma_conf.ambient_gamma)

-- `strptime_r` tells whether `strptime(event, "%R", …)` reads a time. The array holds 10 bytes.
unfoldable pub validate_evt : (List ℕ → Bool) → EvtUpd → Bool
validate_evt strptime_r up = length up.event == 0 || ltb (length up.event) 10 && strptime_r up.event

module _ {D : Type 0} ⦃f : Float D⦄ where
  unfoldable pub validate_loc : Libm D → State D → LocUpd D → Bool
  validate_loc m s up =
      f.lt (f.fabs up.new.lat) (of_int (pos 90))
      && (f.lt (f.fabs up.new.lon) (of_int (pos 180))
          && f.le (of_int (pos 50)) (get_distance m up.new s.current_loc))

  unfoldable pub validate_contrib : Conf D → ContribUpd D → Bool
  validate_contrib c up =
      f.le (of_int (pos 0)) up.new
      && (f.le up.new (of_int (pos 1)) && not (f.eq c.screen_conf.contrib up.new))

  -- `p < 0.0 || p > 1.0`.
  abbrev pub out_of_unit : D → Bool
  out_of_unit p = f.lt p (of_int (pos 0)) || f.lt (of_int (pos 1)) p

  -- The loop over the first `n` points: a read past the array's end is a fault.
  unfoldable pub points_in_unit : ℕ → List D → Option Bool
  points_in_unit zero ps = some true
  points_in_unit (suc n) [] = none
  points_in_unit (suc n) (p ∷ ps) =
      let rest = points_in_unit n ps in if out_of_unit p then some false else rest

  unfoldable pub validate_curve : State D → CurveUpd D → Option (Bool × CurveUpd D)
  unfolding points_in_unit
  validate_curve s up =
      let state = if up.state ==ℤ minus_one then s.ac_state else up.state in
      let up' = record up { state = state } in
      let sized =
        leb_ℤ on_ac state
        && (ltb_ℤ state size_ac
            && (ltb_ℤ (pos 0) up.num_points && leb_ℤ up.num_points max_size_points)) in
      elim up.regression_points [
        | none ↦ some (false, up')
        | some points ↦
            if sized
            then (points_in_unit (pos_part up.num_points) points >>= λ ok. some (ok, up'))
            else some (false, up')
      ]

  abbrev smooth_of : Conf D → ℤ → Option (BlSmooth D)
  smooth_of c smooth =
      if smooth ==ℤ negsuc 0
      then some c.bl_conf.smooth
      else if smooth ==ℤ negsuc 1
      then some c.dim_conf.smooth_enter
      else if smooth ==ℤ negsuc 2
      then some c.dim_conf.smooth_exit
      else none

  -- `BL_FIXED_STEP`.
  abbrev pub bl_fixed_step : D
  bl_fixed_step = f.literal (pos 1) 100

  abbrev with_smooth : State D → BlSmooth D → BlUpd D → BlUpd D
  with_smooth s smooth up =
      let up' = record up { smooth = if smooth.no_smooth then pos 0 else pos 1 } in
      if leb_ℤ smooth.trans_fixed (pos 0)
      then record up' { step = smooth.trans_step; timeout = smooth.trans_timeout }
      else let pct_diff = f.fabs (f.sub s.current_bl_pct up.new) in
        let n_steps = f.div pct_diff bl_fixed_step in
        record up' {
          step = bl_fixed_step;
          timeout = f.truncate (f.div (of_int smooth.trans_fixed) n_steps);
        }

  unfoldable pub validate_backlight : Conf D → State D → BlUpd D → Bool × BlUpd D
  validate_backlight c s up =
      let up' : BlUpd D = elim (smooth_of c up.smooth) [
        | none ↦ up
        | some smooth ↦ with_smooth s smooth up
      ] in
      (f.le (of_int (pos 0)) up.new && f.le up.new (of_int (pos 1)), up')
