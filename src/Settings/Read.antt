-- ===== src/Settings/Read.antt =====
-- conf/config.c: the dimmer's settings, the curves of single monitors, and the whole file. `map_put` is
-- libmodule's, on the list of a map's entries in the order of its iterator.
use clight.Prelude.{
  ℕ, zero, suc, Bool, true, false, not, Option, none, some, List, ◌==◌, if◌then◌else◌, ◌>>=◌, ◌==ℤ◌,
  pos,
}
use clight.Public.{Pair}
use clight.Commons.{Float, Curve, SensorConf, DimmerConf, Conf}
use clight.Settings.{Libconfig}
use clight.Settings.Load.{
  or_else, nonempty, load_pair, load_points, load_backlight_settings, load_sensor_settings,
  load_kbd_settings, load_gamma_settings, load_day_settings, load_dpms_settings,
  load_screen_settings, load_inh_settings,
}
use Prim.Native.String.{String}

abbrev pub CurveMap : Type 0 → Type 0
CurveMap D = List (List ℕ × Pair (Curve D))

module _ {D : Type 0} ⦃f : Float D⦄ where
  -- `calloc`'s curve, with the given points.
  abbrev pub new_curve : List D → Curve D
  new_curve points =
      let zero_d = f.literal (pos 0) 1 in
      record { points = points; fit_parameters = (zero_d, zero_d, zero_d) }

  abbrev pub put_override :
      (List ℕ → Pair (Curve D) → CurveMap D → CurveMap D)
      → Option (List ℕ × Pair (Curve D))
      → CurveMap D
      → CurveMap D
  put_override map_put none m = m
  put_override map_put (some (mon_id, curves)) m = map_put mon_id curves m

module _ {D S : Type 0} ⦃f : Float D⦄ (lib : Libconfig D S) where
  -- The array of two flags is read as floats.
  abbrev pub load_flags : S → String → Option (Pair Bool)
  load_flags s name = do
    a ← lib.lookup s name
    let flag = λ (i : ℕ). not (f.truncate (lib.float_elem a i) ==ℤ pos 0)
    (if lib.elements a == 2 then some (record { first = flag 0; second = flag 1 }) else none)

  abbrev pub load_floats : S → String → Pair D → Pair D
  load_floats s name p = elim (lib.lookup s name) [
    | none ↦ p
    | some a ↦
        if lib.elements a == 2
        then record { first = lib.float_elem a 0; second = lib.float_elem a 1 }
        else p
  ]

  unfoldable pub load_dimmer_settings : S → DimmerConf D → DimmerConf D
  load_dimmer_settings cfg c = elim (lib.lookup cfg "dimmer") [
    | none ↦ c
    | some dim ↦
        let enter = c.smooth_enter in
        let exit = c.smooth_exit in
        let no_smooth =
          or_else (load_flags dim "no_smooth_transition")
            (record { first = enter.no_smooth; second = exit.no_smooth }) in
        let steps =
          load_floats dim "trans_steps"
            (record { first = enter.trans_step; second = exit.trans_step }) in
        let timeouts =
          load_pair lib dim "trans_timeouts"
            (record { first = enter.trans_timeout; second = exit.trans_timeout }) in
        let fixed =
          load_pair lib dim "trans_fixed"
            (record { first = enter.trans_fixed; second = exit.trans_fixed }) in
        record {
          disabled = or_else (lib.lookup_bool dim "disabled") c.disabled;
          dimmed_pct = or_else (lib.lookup_float dim "dimmed_pct") c.dimmed_pct;
          smooth_enter = record {
            no_smooth = no_smooth.first;
            trans_step = steps.first;
            trans_timeout = timeouts.first;
            trans_fixed = fixed.first;
          };
          smooth_exit = record {
            no_smooth = no_smooth.second;
            trans_step = steps.second;
            trans_timeout = timeouts.second;
            trans_fixed = fixed.second;
          };
          timeout = load_pair lib dim "timeouts" c.timeout;
        }
  ]

  -- An element of the list: its name and both curves, or an error.
  abbrev pub load_override : S → Option (List ℕ × Pair (Curve D))
  load_override setting = do
    mon_id ← nonempty (lib.lookup_string setting "monitor_id")
    ac ← load_points lib setting "ac_regression_points"
    batt ← load_points lib setting "batt_regression_points"
    some (mon_id, record { first = new_curve ac; second = new_curve batt })

  -- The loop over the elements `i`, …, `i + n - 1`.
  unfoldable pub load_overrides :
      (List ℕ → Pair (Curve D) → CurveMap D → CurveMap D) → S → ℕ → ℕ → CurveMap D → CurveMap D
  load_overrides map_put s i zero m = m
  load_overrides map_put s i (suc n) m =
      load_overrides map_put s (suc i) n (put_override map_put (load_override (lib.elem_at s i)) m)

  unfoldable pub load_override_settings :
      (List ℕ → Pair (Curve D) → CurveMap D → CurveMap D) → S → SensorConf D → SensorConf D
  unfolding load_overrides
  load_override_settings map_put cfg c = elim (lib.lookup cfg "monitor_override") [
    | none ↦ c
    | some s ↦ record c {
      specific_curves = load_overrides map_put s 0 (lib.elements s) c.specific_curves;
    }
  ]

  -- All settings of a file that can be parsed.
  unfoldable pub load_settings :
      (List ℕ → Pair (Curve D) → CurveMap D → CurveMap D) → S → Conf D → Conf D
  load_settings map_put cfg c = record {
    verbose = or_else (lib.lookup_bool cfg "verbose") c.verbose;
    resumedelay = or_else (lib.lookup_int cfg "resumedelay") c.resumedelay;
    wizard = c.wizard;
    bl_conf = load_backlight_settings lib cfg c.bl_conf;
    sens_conf = load_override_settings map_put cfg (load_sensor_settings lib cfg c.sens_conf);
    kbd_conf = load_kbd_settings lib cfg c.kbd_conf;
    gamma_conf = load_gamma_settings lib cfg c.gamma_conf;
    day_conf = load_day_settings lib cfg c.day_conf;
    dim_conf = load_dimmer_settings cfg c.dim_conf;
    dpms_conf = load_dpms_settings lib cfg c.dpms_conf;
    screen_conf = load_screen_settings lib cfg c.screen_conf;
    inh_conf = load_inh_settings lib cfg c.inh_conf;
  }

  -- `cfg` is `none` if the file is not there, or cannot be parsed.
  unfoldable pub read_config :
      (List ℕ → Pair (Curve D) → CurveMap D → CurveMap D) → Option S → Conf D → Conf D × Bool
  unfolding load_settings
  read_config map_put none c = (c, false)
  read_config map_put (some cfg) c = (load_settings map_put cfg c, true)
