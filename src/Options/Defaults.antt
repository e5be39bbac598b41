-- ===== src/Options/Defaults.antt =====
-- conf/opts.c: the defaults.
use clight.Prelude.{false, none, List, [], minus_one, ℤ, pos}
use clight.Public.{Pair}
use clight.Commons.{
  Float, Curve, BlSmooth, DayTimeouts, SensorConf, BlConf, KbdConf, GammaConf, DaytimeConf,
  DimmerConf, DpmsConf, ScreenConf, Conf,
}
use clight.Settings.{lat_undefined, lon_undefined}
use clight.Settings.Read.{new_curve}
use clight.Options.{cents, bl_default_ac, bl_default_batt, kbd_default_ac, kbd_default_batt}

unfoldable pub init_gamma_opts : GammaConf → GammaConf
init_gamma_opts c = record c {
  temp = record { first = pos 6500; second = pos 4000 };
  trans_step = pos 50;
  trans_timeout = pos 300;
}

unfoldable pub init_dpms_opts : DpmsConf → DpmsConf
init_dpms_opts c = record c { timeout = record { first = pos 900; second = pos 300 } }

module _ {D : Type 0} ⦃f : Float D⦄ where
  -- `conf` before anything is set.
  abbrev pub blank : Conf D
  blank =
      let zero_d = f.literal (pos 0) 1 in
      let smooth : BlSmooth D = record {
        no_smooth = false;
        trans_step = zero_d;
        trans_timeout = pos 0;
        trans_fixed = pos 0;
      } in
      let none_set : Pair ℤ = record { first = pos 0; second = pos 0 } in
      let times : DayTimeouts = record { by_day = pos 0; by_night = pos 0; by_event = pos 0 } in
      let curves : Pair (Curve D) = record { first = new_curve []; second = new_curve [] } in
      record {
        bl_conf = record {
          disabled = false;
          timeout = record { first = times; second = times };
          smooth = smooth;
          no_auto_calib = false;
          shutter_threshold = zero_d;
          pause_on_lid_closed = false;
          capture_on_lid_opened = false;
          restore = false;
          sync_monitors_delay = pos 0;
        };
        sens_conf = record {
          num_captures = none_set;
          dev_name = none;
          dev_opts = none;
          default_curve = curves;
          specific_curves = [];
        };
        kbd_conf = record { disabled = false; timeout = none_set; curve = curves };
        gamma_conf = record {
          disabled = false;
          temp = none_set;
          no_smooth = false;
          trans_step = pos 0;
          trans_timeout = pos 0;
          long_transition = false;
          ambient_gamma = false;
          restore = false;
        };
        day_conf = record {
          day_events = record { first = []; second = [] };
          event_duration = pos 0;
          loc = record { lat = zero_d; lon = zero_d };
          events_os = none_set;
        };
        dim_conf = record {
          disabled = false;
          dimmed_pct = zero_d;
          timeout = none_set;
          smooth_enter = smooth;
          smooth_exit = smooth;
        };
        dpms_conf = record { disabled = false; timeout = none_set };
        screen_conf = record { disabled = false; contrib = zero_d; timeout = none_set };
        inh_conf = record {
          disabled = false;
          inhibit_docked = false;
          inhibit_pm = false;
          inhibit_bl = false;
        };
        verbose = false;
        wizard = false;
        resumedelay = pos 0;
      }

  unfoldable pub init_backlight_opts : BlConf D → BlConf D
  init_backlight_opts c = record c {
    timeout = record {
      first = record { by_day = pos 600; by_night = pos 2700; by_event = pos 300 };
      second = record { by_day = pos 1200; by_night = pos 5400; by_event = pos 600 };
    };
    smooth = record c.smooth { trans_step = cents 5; trans_timeout = pos 30 };
  }

  abbrev pub curve_from : List D → Curve D → Curve D
  curve_from points c = record c { points = points }

  -- `map_new` gives an empty map.
  unfoldable pub init_sens_opts : SensorConf D → SensorConf D
  init_sens_opts c = record c {
    num_captures = record { first = pos 5; second = pos 5 };
    default_curve = record {
      first = curve_from bl_default_ac c.default_curve.first;
      second = curve_from bl_default_batt c.default_curve.second;
    };
  }

  unfoldable pub init_override_opts : SensorConf D → SensorConf D
  init_override_opts c = record c { specific_curves = [] }

  unfoldable pub init_kbd_opts : KbdConf D → KbdConf D
  init_kbd_opts c = record c {
    timeout = record { first = pos 15; second = pos 5 };
    curve = record {
      first = curve_from kbd_default_ac c.curve.first;
      second = curve_from kbd_default_batt c.curve.second;
    };
  }

  unfoldable pub init_daytime_opts : DaytimeConf D → DaytimeConf D
  init_daytime_opts c = record c {
    event_duration = pos 1800;
    loc = record { lat = lat_undefined; lon = lon_undefined };
  }

  unfoldable pub init_dimmer_opts : DimmerConf D → DimmerConf D
  init_dimmer_opts c = record c {
    timeout = record { first = pos 45; second = pos 20 };
    dimmed_pct = cents 20;
    smooth_enter = record c.smooth_enter { trans_step = cents 5; trans_timeout = pos 30 };
    smooth_exit = record c.smooth_exit { trans_step = cents 5; trans_timeout = pos 30 };
  }

  unfoldable pub init_screen_opts : ScreenConf D → ScreenConf D
  init_screen_opts c = record c {
    contrib = cents 20;
    timeout = record { first = pos 5; second = minus_one };
  }

  -- The defaults of all sections. The inhibition has none.
  unfoldable pub init_opts : Conf D → Conf D
  unfolding init_backlight_opts init_sens_opts init_override_opts init_kbd_opts init_gamma_opts
      init_dpms_opts init_daytime_opts init_dimmer_opts init_screen_opts
  init_opts c = record c {
    bl_conf = init_backlight_opts c.bl_conf;
    sens_conf = init_override_opts (init_sens_opts c.sens_conf);
    kbd_conf = init_kbd_opts c.kbd_conf;
    gamma_conf = init_gamma_opts c.gamma_conf;
    day_conf = init_daytime_opts c.day_conf;
    dim_conf = init_dimmer_opts c.dim_conf;
    dpms_conf = init_dpms_opts c.dpms_conf;
    screen_conf = init_screen_opts c.screen_conf;
  }
