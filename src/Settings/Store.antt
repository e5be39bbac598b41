-- ===== src/Settings/Store.antt =====
-- conf/config.c: writing a configuration to a file.
use clight.Prelude.{
  ℕ, Bool, not, ◌&&◌, Option, none, some, List, [], ◌∷◌, ◌++◌, map, if◌then◌else◌, ℤ,
}
use clight.Public.{Pair, Loc}
use clight.Commons.{
  Float, Curve, DayTimeouts, SensorConf, BlConf, KbdConf, GammaConf, DaytimeConf, DimmerConf,
  DpmsConf, ScreenConf, InhConf, Conf,
}
use clight.Settings.{
  Group, Root, lat_undefined, lon_undefined, bool_value, int_value, float_value, string_value,
  Value, scalar, array, value, group, groups,
}
use Prim.Native.String.{String}

module _ {D : Type 0} where
  abbrev pub bool_of : Bool → Value D
  bool_of b = scalar (bool_value b)

  abbrev pub int_of : ℤ → Value D
  int_of n = scalar (int_value n)

  abbrev pub float_of : D → Value D
  float_of d = scalar (float_value d)

  abbrev pub pair_of : Pair ℤ → Value D
  pair_of p = array (int_value p.first ∷ int_value p.second ∷ [])

  abbrev pub timeouts_of : DayTimeouts → Value D
  timeouts_of t = array (int_value t.by_day ∷ int_value t.by_night ∷ int_value t.by_event ∷ [])

  abbrev pub curve_of : Curve D → Value D
  curve_of c = array (map float_value c.points)

  unfoldable pub store_backlight_settings : BlConf D → Group D
  store_backlight_settings c =
      ("disabled", bool_of c.disabled)
      ∷ ("restore_on_exit", bool_of c.restore)
      ∷ ("no_smooth_transition", bool_of c.smooth.no_smooth)
      ∷ ("trans_step", float_of c.smooth.trans_step)
      ∷ ("trans_timeout", int_of c.smooth.trans_timeout)
      ∷ ("trans_fixed", int_of c.smooth.trans_fixed)
      ∷ ("no_auto_calibration", bool_of c.no_auto_calib)
      ∷ ("pause_on_lid_closed", bool_of c.pause_on_lid_closed)
      ∷ ("capture_on_lid_opened", bool_of c.capture_on_lid_opened)
      ∷ ("shutter_threshold", float_of c.shutter_threshold)
      ∷ ("hotplug_delay", int_of c.sync_monitors_delay)
      ∷ ("ac_timeouts", timeouts_of c.timeout.first)
      ∷ ("batt_timeouts", timeouts_of c.timeout.second)
      ∷ []

  abbrev pub text_if : String → Option (List ℕ) → Group D
  text_if name none = []
  text_if name (some s) = (name, scalar (string_value s)) ∷ []

  unfoldable pub store_sensors_settings : SensorConf D → Group D
  store_sensors_settings c =
      (("captures", pair_of c.num_captures) ∷ text_if "devname" c.dev_name)
      ++ (text_if "settings" c.dev_opts
          ++ (("ac_regression_points", curve_of c.default_curve.first)
              ∷ ("batt_regression_points", curve_of c.default_curve.second)
              ∷ []))

  abbrev pub override_of : List ℕ × Pair (Curve D) → Group D
  override_of (key, c) =
      ("monitor_id", scalar (string_value key))
      ∷ ("ac_regression_points", curve_of c.first)
      ∷ ("batt_regression_points", curve_of c.second)
      ∷ []

  unfoldable pub store_override_settings : SensorConf D → List (Group D)
  store_override_settings c = map override_of c.specific_curves

  unfoldable pub store_kbd_settings : KbdConf D → Group D
  store_kbd_settings c =
      ("disabled", bool_of c.disabled)
      ∷ ("ac_regression_points", curve_of c.curve.first)
      ∷ ("batt_regression_points", curve_of c.curve.second)
      ∷ ("timeouts", pair_of c.timeout)
      ∷ []

  unfoldable pub store_gamma_settings : GammaConf → Group D
  store_gamma_settings c =
      ("disabled", bool_of c.disabled)
      ∷ ("restore_on_exit", bool_of c.restore)
      ∷ ("no_smooth_transition", bool_of c.no_smooth)
      ∷ ("trans_step", int_of c.trans_step)
      ∷ ("trans_timeout", int_of c.trans_timeout)
      ∷ ("long_transition", bool_of c.long_transition)
      ∷ ("ambient_gamma", bool_of c.ambient_gamma)
      ∷ ("temp", pair_of c.temp)
      ∷ []

  -- A place with both coordinates.
  abbrev pub has_place : ⦃f : Float D⦄ → Loc D → Bool
  has_place ⦃f⦄ loc = not (f.eq loc.lat lat_undefined) && not (f.eq loc.lon lon_undefined)

  unfoldable pub store_daytime_settings : ⦃f : Float D⦄ → DaytimeConf D → Group D
  store_daytime_settings ⦃f⦄ c =
      (if has_place c.loc
        then ("latitude", float_of c.loc.lat) ∷ ("longitude", float_of c.loc.lon) ∷ []
        else [])
      ++ (("event_duration", int_of c.event_duration)
          ∷ ("sunrise_offset", int_of c.events_os.first)
          ∷ ("sunset_offset", int_of c.events_os.second)
          ∷ ("sunrise", scalar (string_value c.day_events.first))
          ∷ ("sunset", scalar (string_value c.day_events.second))
          ∷ [])

  unfoldable pub store_dimmer_settings : DimmerConf D → Group D
  store_dimmer_settings c =
      let enter = c.smooth_enter in
      let exit = c.smooth_exit in
      ("disabled", bool_of c.disabled)
      ∷ (
        "no_smooth_transition",
        array (bool_value enter.no_smooth ∷ bool_value exit.no_smooth ∷ []),
      )
      ∷ ("trans_steps", array (float_value enter.trans_step ∷ float_value exit.trans_step ∷ []))
      ∷ (
        "trans_timeouts",
        array (int_value enter.trans_timeout ∷ int_value exit.trans_timeout ∷ []),
      )
      ∷ ("trans_fixed", array (int_value enter.trans_fixed ∷ int_value exit.trans_fixed ∷ []))
      ∷ ("dimmed_pct", float_of c.dimmed_pct)
      ∷ ("timeouts", pair_of c.timeout)
      ∷ []

  unfoldable pub store_dpms_settings : DpmsConf → Group D
  store_dpms_settings c = ("disabled", bool_of c.disabled) ∷ ("timeouts", pair_of c.timeout) ∷ []

  -- The contribution goes under the name `content`.
  unfoldable pub store_screen_settings : ScreenConf D → Group D
  store_screen_settings c =
      ("disabled", bool_of c.disabled)
      ∷ ("content", float_of c.contrib)
      ∷ ("timeouts", pair_of c.timeout)
      ∷ []

  unfoldable pub store_inh_settings : InhConf → Group D
  store_inh_settings c =
      ("disabled", bool_of c.disabled)
      ∷ ("inhibit_docked", bool_of c.inhibit_docked)
      ∷ ("inhibit_pm", bool_of c.inhibit_pm)
      ∷ ("inhibit_bl", bool_of c.inhibit_bl)
      ∷ []

  -- What is written to the file.
  unfoldable pub store_config : ⦃f : Float D⦄ → Conf D → Root D
  store_config c =
      ("verbose", value (bool_of c.verbose))
      ∷ ("resumedelay", value (int_of c.resumedelay))
      ∷ ("backlight", group (store_backlight_settings c.bl_conf))
      ∷ ("sensor", group (store_sensors_settings c.sens_conf))
      ∷ ("monitor_override", groups (store_override_settings c.sens_conf))
      ∷ ("keyboard", group (store_kbd_settings c.kbd_conf))
      ∷ ("gamma", group (store_gamma_settings c.gamma_conf))
      ∷ ("daytime", group (store_daytime_settings c.day_conf))
      ∷ ("dimmer", group (store_dimmer_settings c.dim_conf))
      ∷ ("dpms", group (store_dpms_settings c.dpms_conf))
      ∷ ("screen", group (store_screen_settings c.screen_conf))
      ∷ ("inhibit", group (store_inh_settings c.inh_conf))
      ∷ []
