-- ===== src/Settings/Roundtrip.antt =====
-- A configuration that is written to a file and read again.
use clight.Prelude.{ℕ, ◌≡◌, true, some, List, pos}
use clight.Public.{Pair}
use clight.Commons.{Float, Curve, Conf}
use clight.Settings.{Libconfig}
use clight.Settings.Read.{CurveMap, load_settings, read_config}
use clight.Settings.Store.{store_config}
use clight.Settings.Laws.{Written}
use clight.Settings.Kept.{kept_sensor, kept, IsStorable}
use clight.Settings.Sections.{
  backlight-back, sensor-back, kbd-back, gamma-back, dimmer-back, dpms-back, screen-back, inh-back,
}
use clight.Settings.Overrides.{daytime-back, override-back}

module _ {D S : Type 0} ⦃f : Float D⦄ (lib : Libconfig D S) (w : Written ⦃f = f⦄ lib) where
  open w use {root, rounded, lookup_root, bool_root, int_root}

  module _ (map_put : List ℕ → Pair (Curve D) → CurveMap D → CurveMap D) where
    -- Where the file can be read as it was written, but for the digits of a double, and 0.0 is the `int` 0: a
    -- configuration whose curves have between 1 and 50 points, whose monitors have names and whose times of
    -- events are at most 9 bytes long, stored and read over another configuration, is what `kept` says: all of
    -- it, but that doubles are rounded; that empty texts, an undefined place, the fits, the screen's
    -- contribution and whether it is a run of the wizard are the other's; that the curves of monitors are put
    -- into the other's; and that the dimmer's flags against smooth transitions are false.
    pub store_config-read_config :
        (c c0 : Conf D)
        → IsStorable c
        → f.truncate (f.literal (pos 0) 1) ≡ pos 0
        → read_config lib map_put (some (root (store_config c))) c0
          ≡ (kept rounded map_put c c0, true)
    unfolding read_config load_settings store_config
    store_config-read_config c c0 h z =
        let r = store_config c in
        let cfg = root r in
        let overrides =
          override-back lib w cfg map_put c.sens_conf (kept_sensor rounded c.sens_conf c0.sens_conf)
            h.overrides (lookup_root r "monitor_override") in
        rw (
          backlight-back lib w cfg c.bl_conf c0.bl_conf (lookup_root r "backlight"),
          sensor-back lib w cfg c.sens_conf c0.sens_conf h.sensor_curves (lookup_root r "sensor"),
          overrides,
          kbd-back lib w cfg c.kbd_conf c0.kbd_conf h.kbd_curves (lookup_root r "keyboard"),
          gamma-back lib w cfg c.gamma_conf c0.gamma_conf (lookup_root r "gamma"),
          daytime-back lib w cfg c.day_conf c0.day_conf h.sunrise_fits h.sunset_fits
              (lookup_root r "daytime"),
          dimmer-back lib w cfg c.dim_conf c0.dim_conf z (lookup_root r "dimmer"),
          dpms-back lib w cfg c.dpms_conf c0.dpms_conf (lookup_root r "dpms"),
          screen-back lib w cfg c.screen_conf c0.screen_conf (lookup_root r "screen"),
          inh-back lib w cfg c.inh_conf c0.inh_conf (lookup_root r "inhibit"),
          bool_root r "verbose",
          int_root r "resumedelay",
        )
