-- ===== src/Settings/Kept.antt =====
-- What a configuration file keeps of the configuration that is written to it, when it is read over
-- another: the specification of the round trip.
use clight.Prelude.{ℕ, ◌≤◌, ◌≡◌, false, List, [], ◌∷◌, map, if◌then◌else◌, length}
use clight.Public.{Pair}
use clight.Commons.{
  Float, Curve, BlSmooth, SensorConf, BlConf, KbdConf, DaytimeConf, DimmerConf, ScreenConf, Conf,
}
use clight.Settings.Load.{is_empty, nonempty, or_some}
use clight.Settings.Read.{CurveMap, new_curve}
use clight.Settings.Store.{has_place}

module _ {D : Type 0} where
  -- The contribution is lost: it is the other configuration's.
  abbrev pub kept_screen : ScreenConf D → ScreenConf D → ScreenConf D
  kept_screen c c0 = record c { contrib = c0.contrib }

  -- The curves have points, and no more than there is room for; the names of monitors are not empty; and
  -- the times of the events are at most 9 bytes long.
  abbrev pub HasRoom : Curve D → Type 0
  HasRoom c = (1 ≤ length c.points) × (length c.points ≤ 50)

  abbrev pub HaveRoom : Pair (Curve D) → Type 0
  HaveRoom p = HasRoom p.first × HasRoom p.second

  abbrev pub OverridesStorable : CurveMap D → Type 0
  OverridesStorable [] = Unit
  OverridesStorable ((key, c) ∷ cs) = (is_empty key ≡ false) × HaveRoom c × OverridesStorable cs

  pub record IsStorable (c : Conf D) : Type 0 where
    pub sensor_curves : HaveRoom c.sens_conf.default_curve
    pub overrides : OverridesStorable c.sens_conf.specific_curves
    pub kbd_curves : HaveRoom c.kbd_conf.curve
    pub sunrise_fits : length c.day_conf.day_events.first ≤ 9
    pub sunset_fits : length c.day_conf.day_events.second ≤ 9

module _ {D : Type 0} ⦃f : Float D⦄ (rounded : D → D) where
  -- The points are kept, and the fit is the other configuration's.
  abbrev pub kept_curve : Curve D → Curve D → Curve D
  kept_curve c c0 = record { points = map rounded c.points; fit_parameters = c0.fit_parameters }

  abbrev pub kept_curves : Pair (Curve D) → Pair (Curve D) → Pair (Curve D)
  kept_curves p p0 = record {
    first = kept_curve p.first p0.first;
    second = kept_curve p.second p0.second;
  }

  abbrev pub kept_backlight : BlConf D → BlConf D
  kept_backlight c = record c {
    smooth = record c.smooth { trans_step = rounded c.smooth.trans_step };
    shutter_threshold = rounded c.shutter_threshold;
  }

  abbrev pub kept_sensor : SensorConf D → SensorConf D → SensorConf D
  kept_sensor c c0 = record {
    num_captures = c.num_captures;
    dev_name = or_some (nonempty c.dev_name) c0.dev_name;
    dev_opts = or_some (nonempty c.dev_opts) c0.dev_opts;
    default_curve = kept_curves c.default_curve c0.default_curve;
    specific_curves = c0.specific_curves;
  }

  -- The curves of single monitors are put into the other configuration's map, one after another.
  unfoldable pub kept_overrides :
      (List ℕ → Pair (Curve D) → CurveMap D → CurveMap D) → CurveMap D → CurveMap D → CurveMap D
  kept_overrides map_put [] m = m
  kept_overrides map_put ((key, c) ∷ cs) m = kept_overrides map_put cs (
      map_put key
        (record {
          first = new_curve (map rounded c.first.points);
          second = new_curve (map rounded c.second.points);
        })
        m)

  abbrev pub kept_kbd : KbdConf D → KbdConf D → KbdConf D
  kept_kbd c c0 = record c { curve = kept_curves c.curve c0.curve }

  -- The place is kept if both of its coordinates are defined.
  abbrev pub kept_daytime : DaytimeConf D → DaytimeConf D → DaytimeConf D
  kept_daytime c c0 = record c {
    loc =
        if has_place c.loc
        then record { lat = rounded c.loc.lat; lon = rounded c.loc.lon }
        else c0.loc;
  }

  -- The flags against smooth transitions are lost: they are false afterwards.
  abbrev pub kept_smooth : BlSmooth D → BlSmooth D
  kept_smooth s = record s { no_smooth = false; trans_step = rounded s.trans_step }

  abbrev pub kept_dimmer : DimmerConf D → DimmerConf D
  kept_dimmer c = record c {
    dimmed_pct = rounded c.dimmed_pct;
    smooth_enter = kept_smooth c.smooth_enter;
    smooth_exit = kept_smooth c.smooth_exit;
  }

  abbrev pub kept : (List ℕ → Pair (Curve D) → CurveMap D → CurveMap D) → Conf D → Conf D → Conf D
  kept map_put c c0 = record c {
    wizard = c0.wizard;
    bl_conf = kept_backlight c.bl_conf;
    sens_conf = record (kept_sensor c.sens_conf c0.sens_conf) {
      specific_curves =
          kept_overrides map_put c.sens_conf.specific_curves c0.sens_conf.specific_curves;
    };
    kbd_conf = kept_kbd c.kbd_conf c0.kbd_conf;
    day_conf = kept_daytime c.day_conf c0.day_conf;
    dim_conf = kept_dimmer c.dim_conf;
    screen_conf = kept_screen c.screen_conf c0.screen_conf;
  }
