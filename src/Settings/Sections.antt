-- ===== src/Settings/Sections.antt =====
-- A section of a configuration that is written to a file and read again.
use clight.Prelude.{ℕ, ◌≡◌, refl, ◌∙◌, Option, none, some, List, [], ◌∷◌, ◌++◌, ◌>>=◌, pos}
use clight.Commons.{
  Float, SensorConf, BlConf, KbdConf, GammaConf, DimmerConf, DpmsConf, ScreenConf, InhConf,
}
use clight.Settings.{member, Libconfig, Value, group}
use clight.Settings.Load.{
  load_backlight_settings, load_sensor_settings, load_kbd_settings, load_gamma_settings,
  load_dpms_settings, load_screen_settings, load_inh_settings,
}
use clight.Settings.Read.{load_dimmer_settings}
use clight.Settings.Store.{
  pair_of, curve_of, store_backlight_settings, text_if, store_sensors_settings, store_kbd_settings,
  store_gamma_settings, store_dimmer_settings, store_dpms_settings, store_screen_settings,
  store_inh_settings,
}
use clight.Settings.Laws.{read_string, Written}
use clight.Settings.Kept.{kept_screen, HaveRoom, kept_backlight, kept_sensor, kept_kbd, kept_dimmer}
use clight.Settings.Arrays.{
  load_pair-back, load_timeouts-back, load_floats-back, load_flags-back, load_curve-back,
}

-- The texts of a sensor may be left out.
sensor_members :
    {D : Type 0} (p a b : Value D) (x y : Option (List ℕ))
    → let g =
        (("captures", p) ∷ text_if "devname" x)
        ++ (text_if "settings" y
            ++ (("ac_regression_points", a) ∷ ("batt_regression_points", b) ∷ [])) in
      ((member "devname" g >>= read_string) ≡ x)
      × ((member "settings" g >>= read_string) ≡ y)
      × (member "ac_regression_points" g ≡ some a)
      × (member "batt_regression_points" g ≡ some b)
sensor_members p a b none none = (refl, refl, refl, refl)
sensor_members p a b none (some y) = (refl, refl, refl, refl)
sensor_members p a b (some x) none = (refl, refl, refl, refl)
sensor_members p a b (some x) (some y) = (refl, refl, refl, refl)

module _ {D S : Type 0} ⦃f : Float D⦄ (lib : Libconfig D S) (w : Written ⦃f = f⦄ lib)
    (cfg : S) where
  open w use {entry, rounded, lookup_group, bool_group, int_group, float_group, string_group}

  pub backlight-back :
      (c c0 : BlConf D)
      → lib.lookup cfg "backlight" ≡ some (entry (group (store_backlight_settings c)))
      → load_backlight_settings lib cfg c0 ≡ kept_backlight rounded c
  unfolding load_backlight_settings store_backlight_settings
  backlight-back c c0 e =
      let g = store_backlight_settings c in
      let ac = load_timeouts-back lib w g "ac_timeouts" c.timeout.first c0.timeout.first refl in
      let batt =
        load_timeouts-back lib w g "batt_timeouts" c.timeout.second c0.timeout.second refl in
      rw (e, load_backlight_settings) (simp (bool_group, int_group, float_group, ac, batt))

  pub sensor-back :
      (c c0 : SensorConf D)
      → HaveRoom c.default_curve
      → lib.lookup cfg "sensor" ≡ some (entry (group (store_sensors_settings c)))
      → load_sensor_settings lib cfg c0 ≡ kept_sensor rounded c c0
  unfolding load_sensor_settings store_sensors_settings
  sensor-back c c0 h e =
      let g = store_sensors_settings c in
      let m =
        sensor_members (pair_of c.num_captures) (curve_of c.default_curve.first)
          (curve_of c.default_curve.second) c.dev_name c.dev_opts in
      let name = string_group g "devname" ∙ m.0 in
      let opts = string_group g "settings" ∙ m.1 in
      let captures = load_pair-back lib w g "captures" c.num_captures c0.num_captures refl in
      let ac =
        load_curve-back lib w g "ac_regression_points" c.default_curve.first c0.default_curve.first
          h.0 m.2 in
      let batt =
        load_curve-back lib w g "batt_regression_points" c.default_curve.second
          c0.default_curve.second h.1 m.3 in
      rw (e, load_sensor_settings) (simp (name, opts, captures, ac, batt))

  pub kbd-back :
      (c c0 : KbdConf D)
      → HaveRoom c.curve
      → lib.lookup cfg "keyboard" ≡ some (entry (group (store_kbd_settings c)))
      → load_kbd_settings lib cfg c0 ≡ kept_kbd rounded c c0
  unfolding load_kbd_settings store_kbd_settings
  kbd-back c c0 h e =
      let g = store_kbd_settings c in
      let ac =
        load_curve-back lib w g "ac_regression_points" c.curve.first c0.curve.first h.0 refl in
      let batt =
        load_curve-back lib w g "batt_regression_points" c.curve.second c0.curve.second h.1 refl in
      let timeouts = load_pair-back lib w g "timeouts" c.timeout c0.timeout refl in
      rw (e, load_kbd_settings) (simp (bool_group, ac, batt, timeouts))

  pub gamma-back :
      (c c0 : GammaConf)
      → lib.lookup cfg "gamma" ≡ some (entry (group (store_gamma_settings c)))
      → load_gamma_settings lib cfg c0 ≡ c
  unfolding load_gamma_settings store_gamma_settings
  gamma-back c c0 e =
      let temp = load_pair-back lib w (store_gamma_settings c) "temp" c.temp c0.temp refl in
      rw (e, load_gamma_settings) (simp (bool_group, int_group, temp))

  pub dimmer-back :
      (c c0 : DimmerConf D)
      → f.truncate (f.literal (pos 0) 1) ≡ pos 0
      → lib.lookup cfg "dimmer" ≡ some (entry (group (store_dimmer_settings c)))
      → load_dimmer_settings lib cfg c0 ≡ kept_dimmer rounded c
  unfolding load_dimmer_settings store_dimmer_settings
  dimmer-back c c0 z e =
      let g = store_dimmer_settings c in
      let enter = c.smooth_enter in
      let exit = c.smooth_exit in
      let enter0 = c0.smooth_enter in
      let exit0 = c0.smooth_exit in
      let flags =
        load_flags-back lib w g "no_smooth_transition" enter.no_smooth exit.no_smooth z refl in
      let steps =
        load_floats-back lib w g "trans_steps" enter.trans_step exit.trans_step
          (record { first = enter0.trans_step; second = exit0.trans_step }) refl in
      let trans =
        load_pair-back lib w g "trans_timeouts"
          (record { first = enter.trans_timeout; second = exit.trans_timeout })
          (record { first = enter0.trans_timeout; second = exit0.trans_timeout }) refl in
      let fixed =
        load_pair-back lib w g "trans_fixed"
          (record { first = enter.trans_fixed; second = exit.trans_fixed })
          (record { first = enter0.trans_fixed; second = exit0.trans_fixed }) refl in
      let timeouts = load_pair-back lib w g "timeouts" c.timeout c0.timeout refl in
      rw (e, load_dimmer_settings)
        (simp (bool_group, float_group, flags, steps, trans, fixed, timeouts))

  pub dpms-back :
      (c c0 : DpmsConf)
      → lib.lookup cfg "dpms" ≡ some (entry (group (store_dpms_settings c)))
      → load_dpms_settings lib cfg c0 ≡ c
  unfolding load_dpms_settings store_dpms_settings
  dpms-back c c0 e =
      let timeouts =
        load_pair-back lib w (store_dpms_settings c) "timeouts" c.timeout c0.timeout refl in
      rw (e, load_dpms_settings) (simp (bool_group, timeouts))

  pub screen-back :
      (c c0 : ScreenConf D)
      → lib.lookup cfg "screen" ≡ some (entry (group (store_screen_settings c)))
      → load_screen_settings lib cfg c0 ≡ kept_screen c c0
  unfolding load_screen_settings store_screen_settings
  screen-back c c0 e =
      let timeouts =
        load_pair-back lib w (store_screen_settings c) "timeouts" c.timeout c0.timeout refl in
      rw (e, load_screen_settings) (simp (bool_group, float_group, timeouts))

  pub inh-back :
      (c c0 : InhConf)
      → lib.lookup cfg "inhibit" ≡ some (entry (group (store_inh_settings c)))
      → load_inh_settings lib cfg c0 ≡ c
  unfolding load_inh_settings store_inh_settings
  inh-back c c0 e = rw (e, load_inh_settings) (simp bool_group)
