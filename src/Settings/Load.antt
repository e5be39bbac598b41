-- ===== src/Settings/Load.antt =====
-- conf/config.c: reading a file over a configuration. What the file does not have, or has with another
-- type or length, stays as it is.
use clight.Prelude.{
  ℕ, zero, suc, Bool, true, false, ◌&&◌, Option, none, some, List, [], ◌∷◌, ltb, leb, ◌==◌,
  if◌then◌else◌, ◌>>=◌, take, ℤ,
}
use clight.Public.{Pair}
use clight.Commons.{
  Curve, DayTimeouts, SensorConf, BlConf, KbdConf, GammaConf, DaytimeConf, DpmsConf, ScreenConf,
  InhConf,
}
use clight.Settings.{Libconfig}
use Prim.Native.String.{String}

abbrev pub or_else : {A : Type 0} → Option A → A → A
or_else none a = a
or_else (some x) a = x

-- `is_string_empty`, on a text that is there.
abbrev pub is_empty : List ℕ → Bool
is_empty [] = true
is_empty (c ∷ cs) = false

-- A text that is there and is not empty.
abbrev pub nonempty : Option (List ℕ) → Option (List ℕ)
nonempty none = none
nonempty (some s) = if is_empty s then none else some s

abbrev pub or_some : {A : Type 0} → Option A → Option A → Option A
or_some none b = b
or_some (some a) b = some a

module _ {D S : Type 0} (lib : Libconfig D S) where
  -- An array of two `int`, and one of three.
  abbrev pub load_pair : S → String → Pair ℤ → Pair ℤ
  load_pair s name p = elim (lib.lookup s name) [
    | none ↦ p
    | some a ↦
        if lib.elements a == 2
        then record { first = lib.int_elem a 0; second = lib.int_elem a 1 }
        else p
  ]

  abbrev pub load_timeouts : S → String → DayTimeouts → DayTimeouts
  load_timeouts s name p = elim (lib.lookup s name) [
    | none ↦ p
    | some a ↦
        if lib.elements a == 3
        then record {
          by_day = lib.int_elem a 0;
          by_night = lib.int_elem a 1;
          by_event = lib.int_elem a 2;
        }
        else p
  ]

  -- The loop over the elements `i`, …, `i + n - 1`.
  abbrev pub float_elems : S → ℕ → ℕ → List D
  float_elems a i zero = []
  float_elems a i (suc n) = lib.float_elem a i ∷ float_elems a (suc i) n

  -- The points of an array that is neither empty nor longer than `MAX_SIZE_POINTS`.
  abbrev pub points_of : S → Option (List D)
  points_of a =
      let len = lib.elements a in
      if ltb 0 len && leb len 50 then some (float_elems a 0 len) else none

  abbrev pub load_points : S → String → Option (List D)
  load_points s name = lib.lookup s name >>= points_of

  abbrev pub load_curve : S → String → Curve D → Curve D
  load_curve s name c = record c { points = or_else (load_points s name) c.points }

  unfoldable pub load_backlight_settings : S → BlConf D → BlConf D
  load_backlight_settings cfg c = elim (lib.lookup cfg "backlight") [
    | none ↦ c
    | some bl ↦ record c {
      disabled = or_else (lib.lookup_bool bl "disabled") c.disabled;
      restore = or_else (lib.lookup_bool bl "restore_on_exit") c.restore;
      smooth = record c.smooth {
        no_smooth = or_else (lib.lookup_bool bl "no_smooth_transition") c.smooth.no_smooth;
        trans_step = or_else (lib.lookup_float bl "trans_step") c.smooth.trans_step;
        trans_timeout = or_else (lib.lookup_int bl "trans_timeout") c.smooth.trans_timeout;
        trans_fixed = or_else (lib.lookup_int bl "trans_fixed") c.smooth.trans_fixed;
      };
      shutter_threshold = or_else (lib.lookup_float bl "shutter_threshold") c.shutter_threshold;
      no_auto_calib = or_else (lib.lookup_bool bl "no_auto_calibration") c.no_auto_calib;
      pause_on_lid_closed =
          or_else (lib.lookup_bool bl "pause_on_lid_closed") c.pause_on_lid_closed;
      capture_on_lid_opened =
          or_else (lib.lookup_bool bl "capture_on_lid_opened") c.capture_on_lid_opened;
      sync_monitors_delay = or_else (lib.lookup_int bl "hotplug_delay") c.sync_monitors_delay;
      timeout = record {
        first = load_timeouts bl "ac_timeouts" c.timeout.first;
        second = load_timeouts bl "batt_timeouts" c.timeout.second;
      };
    }
  ]

  unfoldable pub load_sensor_settings : S → SensorConf D → SensorConf D
  load_sensor_settings cfg c = elim (lib.lookup cfg "sensor") [
    | none ↦ c
    | some sens_group ↦ record c {
      dev_name = or_some (nonempty (lib.lookup_string sens_group "devname")) c.dev_name;
      dev_opts = or_some (nonempty (lib.lookup_string sens_group "settings")) c.dev_opts;
      num_captures = load_pair sens_group "captures" c.num_captures;
      default_curve = record {
        first = load_curve sens_group "ac_regression_points" c.default_curve.first;
        second = load_curve sens_group "batt_regression_points" c.default_curve.second;
      };
    }
  ]

  unfoldable pub load_kbd_settings : S → KbdConf D → KbdConf D
  load_kbd_settings cfg c = elim (lib.lookup cfg "keyboard") [
    | none ↦ c
    | some kbd ↦ record {
      disabled = or_else (lib.lookup_bool kbd "disabled") c.disabled;
      timeout = load_pair kbd "timeouts" c.timeout;
      curve = record {
        first = load_curve kbd "ac_regression_points" c.curve.first;
        second = load_curve kbd "batt_regression_points" c.curve.second;
      };
    }
  ]

  unfoldable pub load_gamma_settings : S → GammaConf → GammaConf
  load_gamma_settings cfg c = elim (lib.lookup cfg "gamma") [
    | none ↦ c
    | some gamma ↦ record {
      disabled = or_else (lib.lookup_bool gamma "disabled") c.disabled;
      restore = or_else (lib.lookup_bool gamma "restore_on_exit") c.restore;
      no_smooth = or_else (lib.lookup_bool gamma "no_smooth_transition") c.no_smooth;
      trans_step = or_else (lib.lookup_int gamma "trans_step") c.trans_step;
      trans_timeout = or_else (lib.lookup_int gamma "trans_timeout") c.trans_timeout;
      long_transition = or_else (lib.lookup_bool gamma "long_transition") c.long_transition;
      ambient_gamma = or_else (lib.lookup_bool gamma "ambient_gamma") c.ambient_gamma;
      temp = load_pair gamma "temp" c.temp;
    }
  ]

  unfoldable pub load_day_settings : S → DaytimeConf D → DaytimeConf D
  load_day_settings cfg c = elim (lib.lookup cfg "daytime") [
    | none ↦ c
    | some daytime ↦ record {
      loc = record {
        lat = or_else (lib.lookup_float daytime "latitude") c.loc.lat;
        lon = or_else (lib.lookup_float daytime "longitude") c.loc.lon;
      };
      event_duration = or_else (lib.lookup_int daytime "event_duration") c.event_duration;
      events_os = record {
        first = or_else (lib.lookup_int daytime "sunrise_offset") c.events_os.first;
        second = or_else (lib.lookup_int daytime "sunset_offset") c.events_os.second;
      };
      day_events = record {
        first = elim (lib.lookup_string daytime "sunrise") [
          | none ↦ c.day_events.first
          | some s ↦ take 9 s
        ];
        second = elim (lib.lookup_string daytime "sunset") [
          | none ↦ c.day_events.second
          | some s ↦ take 9 s
        ];
      };
    }
  ]

  unfoldable pub load_dpms_settings : S → DpmsConf → DpmsConf
  load_dpms_settings cfg c = elim (lib.lookup cfg "dpms") [
    | none ↦ c
    | some dpms ↦ record {
      disabled = or_else (lib.lookup_bool dpms "disabled") c.disabled;
      timeout = load_pair dpms "timeouts" c.timeout;
    }
  ]

  unfoldable pub load_screen_settings : S → ScreenConf D → ScreenConf D
  load_screen_settings cfg c = elim (lib.lookup cfg "screen") [
    | none ↦ c
    | some screen ↦ record {
      disabled = or_else (lib.lookup_bool screen "disabled") c.disabled;
      contrib = or_else (lib.lookup_float screen "contrib") c.contrib;
      timeout = load_pair screen "timeouts" c.timeout;
    }
  ]

  unfoldable pub load_inh_settings : S → InhConf → InhConf
  load_inh_settings cfg c = elim (lib.lookup cfg "inhibit") [
    | none ↦ c
    | some inh ↦ record {
      disabled = or_else (lib.lookup_bool inh "disabled") c.disabled;
      inhibit_docked = or_else (lib.lookup_bool inh "inhibit_docked") c.inhibit_docked;
      inhibit_pm = or_else (lib.lookup_bool inh "inhibit_pm") c.inhibit_pm;
      inhibit_bl = or_else (lib.lookup_bool inh "inhibit_bl") c.inhibit_bl;
    }
  ]
