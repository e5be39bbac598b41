-- ===== src/Options.antt =====
-- conf/opts.c: the defaults, and the checks that reset what is out of range. `features` is what
-- `check_clightd_features` does: it disables what clightd was built without. `strptime_r` tells whether
-- `strptime(event, "%R", …)` reads a time.
pub mod Range
pub mod Valid
pub mod Stay
pub mod Keeps
pub mod Defaults
use clight.Prelude.{
  ℕ, Bool, true, false, not, ◌&&◌, ◌||◌, List, [], ◌∷◌, map, if◌then◌else◌, ltb_ℤ, leb_ℤ, ℤ, pos,
}
use clight.Public.{Pair}
use clight.Commons.{
  Float, Curve, BlSmooth, SensorConf, BlConf, KbdConf, GammaConf, DaytimeConf, DimmerConf, DpmsConf,
  ScreenConf, InhConf, Conf,
}
use clight.Pubsub.Validations.{out_of_unit}
use clight.Settings.{lat_undefined, lon_undefined}
use clight.Settings.Load.{is_empty}

-- A value that fails its check is reset to the default.
abbrev pub reset_if : {A : Type 0} → (A → Bool) → A → A → A
reset_if wrong default x = if wrong x then default else x

abbrev pub outside : ℤ → ℤ → ℤ → Bool
outside low high n = ltb_ℤ n low || ltb_ℤ high n

abbrev pub not_positive : ℤ → Bool
not_positive n = leb_ℤ n (pos 0)

-- A section is checked unless it is disabled.
abbrev pub unless : {A : Type 0} → Bool → (A → A) → A → A
unless disabled check x = if disabled then x else check x

unfoldable pub check_gamma_conf : Bool → GammaConf → GammaConf
check_gamma_conf bl_disabled c =
    let wrong_temp = outside (pos 1000) (pos 10000) in
    record c {
      ambient_gamma = not bl_disabled && c.ambient_gamma;
      temp = record {
        first = reset_if wrong_temp (pos 6500) c.temp.first;
        second = reset_if wrong_temp (pos 4000) c.temp.second;
      };
      trans_step = reset_if not_positive (pos 50) c.trans_step;
      trans_timeout = reset_if not_positive (pos 300) c.trans_timeout;
    }

unfoldable pub check_inh_conf : Bool → InhConf → InhConf
check_inh_conf unneeded c =
    if unneeded then record c { disabled = true; inhibit_docked = false; inhibit_pm = false } else c

module _ {D : Type 0} ⦃f : Float D⦄ where
  abbrev pub cents : ℕ → D
  cents n = f.literal (pos n) 100

  -- The rows of `bl_default_curve` and `kbd_default_curve`, in hundredths.
  abbrev pub bl_default_ac : List D
  bl_default_ac = map cents (0 ∷ 15 ∷ 29 ∷ 45 ∷ 61 ∷ 74 ∷ 81 ∷ 88 ∷ 93 ∷ 97 ∷ 100 ∷ [])

  abbrev pub bl_default_batt : List D
  bl_default_batt = map cents (0 ∷ 15 ∷ 23 ∷ 36 ∷ 52 ∷ 59 ∷ 65 ∷ 71 ∷ 75 ∷ 78 ∷ 80 ∷ [])

  abbrev pub kbd_default_ac : List D
  kbd_default_ac = map cents (100 ∷ 97 ∷ 93 ∷ 88 ∷ 81 ∷ 74 ∷ 61 ∷ 45 ∷ 29 ∷ 15 ∷ 0 ∷ [])

  abbrev pub kbd_default_batt : List D
  kbd_default_batt = map cents (80 ∷ 78 ∷ 75 ∷ 71 ∷ 65 ∷ 59 ∷ 52 ∷ 36 ∷ 23 ∷ 15 ∷ 0 ∷ [])

  -- `step <= 0.0f || step >= 1.0f`.
  abbrev pub wrong_step : D → Bool
  wrong_step step = f.le step (f.literal (pos 0) 1) || f.le (f.literal (pos 1) 1) step

  abbrev pub wrong_threshold : D → Bool
  wrong_threshold t = f.lt t (f.literal (pos 0) 1) || f.le (f.literal (pos 1) 1) t

  unfoldable pub check_bl_conf : BlConf D → BlConf D
  check_bl_conf c = record c {
    smooth = record c.smooth {
      trans_step = reset_if wrong_step (cents 5) c.smooth.trans_step;
      trans_timeout = reset_if not_positive (pos 30) c.smooth.trans_timeout;
    };
    shutter_threshold = reset_if wrong_threshold (f.literal (pos 0) 1) c.shutter_threshold;
    sync_monitors_delay = reset_if (outside (pos 0) (pos 10)) (pos 0) c.sync_monitors_delay;
  }

  -- The loop stops at the first point out of range.
  abbrev pub wrong_points : List D → Bool
  wrong_points [] = false
  wrong_points (p ∷ ps) = out_of_unit p || wrong_points ps

  abbrev pub check_curve : List D → Curve D → Curve D
  check_curve fallback c = record c { points = reset_if wrong_points fallback c.points }

  unfoldable pub check_curve_points : List D → List D → Pair (Curve D) → Pair (Curve D)
  check_curve_points ac batt c = record {
    first = check_curve ac c.first;
    second = check_curve batt c.second;
  }

  unfoldable pub check_sens_conf : SensorConf D → SensorConf D
  unfolding check_curve_points
  check_sens_conf c =
      let captures = reset_if (outside (pos 1) (pos 20)) (pos 5) in
      record c {
        num_captures = record {
          first = captures c.num_captures.first;
          second = captures c.num_captures.second;
        };
        default_curve = check_curve_points bl_default_ac bl_default_batt c.default_curve;
      }

  unfoldable pub check_override_conf : SensorConf D → SensorConf D
  unfolding check_curve_points
  check_override_conf c = record c {
    specific_curves =
        map (λ (k, curves). (k, check_curve_points bl_default_ac bl_default_batt curves))
          c.specific_curves;
  }

  unfoldable pub check_kbd_conf : KbdConf D → KbdConf D
  unfolding check_curve_points
  check_kbd_conf c = record c { curve = check_curve_points kbd_default_ac kbd_default_batt c.curve }

  abbrev pub wrong_coordinate : ℕ → D → D → Bool
  wrong_coordinate max undefined x =
      f.lt (f.literal (pos max) 1) (f.fabs x) && not (f.eq x undefined)

  unfoldable pub check_daytime_conf : (List ℕ → Bool) → DaytimeConf D → DaytimeConf D
  check_daytime_conf strptime_r c =
      let event = reset_if (λ s. not (is_empty s) && not (strptime_r s)) [] in
      record c {
        event_duration = reset_if not_positive (pos 1800) c.event_duration;
        loc = record {
          lat = reset_if (wrong_coordinate 90 lat_undefined) lat_undefined c.loc.lat;
          lon = reset_if (wrong_coordinate 180 lon_undefined) lon_undefined c.loc.lon;
        };
        day_events = record {
          first = event c.day_events.first;
          second = event c.day_events.second;
        };
      }

  abbrev pub check_dim_smooth : BlSmooth D → BlSmooth D
  check_dim_smooth s = record s {
    trans_step = reset_if wrong_step (cents 5) s.trans_step;
    trans_timeout = reset_if not_positive (pos 30) s.trans_timeout;
  }

  unfoldable pub check_dim_conf : Bool → DimmerConf D → DimmerConf D
  check_dim_conf bl_disabled c = record c {
    disabled = bl_disabled || c.disabled;
    dimmed_pct = reset_if out_of_unit (cents 20) c.dimmed_pct;
    smooth_enter = check_dim_smooth c.smooth_enter;
    smooth_exit = check_dim_smooth c.smooth_exit;
  }

  unfoldable pub check_dpms_conf : DimmerConf D → DpmsConf → DpmsConf
  check_dpms_conf dim c = if dim.disabled then c else record c {
    timeout = record {
      first = reset_if (λ t. leb_ℤ t dim.timeout.first) (pos 900) c.timeout.first;
      second = reset_if (λ t. leb_ℤ t dim.timeout.second) (pos 300) c.timeout.second;
    };
  }

  unfoldable pub check_screen_conf : Bool → ScreenConf D → ScreenConf D
  check_screen_conf bl_disabled c = record c {
    disabled = bl_disabled || c.disabled;
    contrib = reset_if out_of_unit (cents 20) c.contrib;
  }

  -- In the wizard, everything is disabled but the backlight.
  abbrev pub for_wizard : Conf D → Conf D
  for_wizard c = record c {
    bl_conf = record c.bl_conf { no_auto_calib = true };
    kbd_conf = record c.kbd_conf { disabled = true };
    gamma_conf = record c.gamma_conf { disabled = true };
    dim_conf = record c.dim_conf { disabled = true };
    dpms_conf = record c.dpms_conf { disabled = true };
    screen_conf = record c.screen_conf { disabled = true };
  }

  unfoldable pub check_conf : (List ℕ → Bool) → (Conf D → Conf D) → Conf D → Conf D
  unfolding check_bl_conf check_sens_conf check_override_conf check_kbd_conf check_gamma_conf
      check_daytime_conf check_dim_conf check_dpms_conf check_screen_conf check_inh_conf
  check_conf strptime_r features c0 =
      let c = if c0.wizard then for_wizard c0 else features c0 in
      let no_bl = c.bl_conf.disabled in
      let dim = unless c.dim_conf.disabled (check_dim_conf no_bl) c.dim_conf in
      let dpms = unless c.dpms_conf.disabled (check_dpms_conf dim) c.dpms_conf in
      record c {
        resumedelay = reset_if (outside (pos 0) (pos 30)) (pos 0) c.resumedelay;
        bl_conf = unless no_bl check_bl_conf c.bl_conf;
        sens_conf = unless no_bl (λ s. check_override_conf (check_sens_conf s)) c.sens_conf;
        kbd_conf = unless c.kbd_conf.disabled check_kbd_conf c.kbd_conf;
        gamma_conf = unless c.gamma_conf.disabled (check_gamma_conf no_bl) c.gamma_conf;
        day_conf = check_daytime_conf strptime_r c.day_conf;
        dim_conf = dim;
        dpms_conf = dpms;
        screen_conf = unless c.screen_conf.disabled (check_screen_conf no_bl) c.screen_conf;
        inh_conf = check_inh_conf (dim.disabled && dpms.disabled) c.inh_conf;
      }
