-- ===== src/Settings/Bounds.antt =====
-- The number of points of the curves that are read from any file.
use clight.Prelude.{
  ℕ, zero, suc, ◌≤◌, ◌≡◌, refl, ap, inl, inr, ◌&&◌, Option, none, some, List, arith, ltb, leb,
  Bool-cases, Option-cases, ◌>>=◌, length, All,
}
use clight.Public.{Pair}
use clight.Commons.{Float, Curve, SensorConf, KbdConf, Conf}
use clight.Settings.{Libconfig}
use clight.Settings.Load.{
  or_else, nonempty, float_elems, points_of, load_points, load_curve, load_sensor_settings,
  load_kbd_settings,
}
use clight.Settings.Read.{
  CurveMap, new_curve, put_override, load_override, load_overrides, load_override_settings,
  load_settings, read_config,
}
use clight.Settings.Kept.{HasRoom, HaveRoom}
use Prim.Native.String.{String}

-- Each curve of a configuration has between 1 and 50 points, which is what its array has room for.
pub record HasRooms {D : Type 0} (c : Conf D) : Type 0 where
  pub sensor : HaveRoom c.sens_conf.default_curve
  pub monitors : All (λ e. HaveRoom e.1) c.sens_conf.specific_curves
  pub keyboard : HaveRoom c.kbd_conf.curve

-- A list of points that is there has room.
abbrev PointsFit : {D : Type 0} → Option (List D) → Type 0
PointsFit none = Unit
PointsFit (some ps) = (1 ≤ length ps) × (length ps ≤ 50)

bind-PointsFit :
    {S D : Type 0} (o : Option S) (g : S → Option (List D))
    → ((a : S) → PointsFit (g a))
    → PointsFit (o >>= g)
bind-PointsFit none g h = tt
bind-PointsFit (some a) g h = h a

or_else-PointsFit :
    {D : Type 0} (o : Option (List D)) (c : Curve D)
    → PointsFit o
    → HasRoom c
    → HasRoom (record c { points = or_else o c.points })
or_else-PointsFit none c h hc = hc
or_else-PointsFit (some ps) c h hc = h

module _ {D S : Type 0} (lib : Libconfig D S) where
  length-float_elems : (a : S) (i n : ℕ) → length (float_elems lib a i n) ≡ n
  length-float_elems a i zero = refl
  length-float_elems a i (suc n) = ap suc (length-float_elems a (suc i) n)

  points_of-PointsFit : (a : S) → PointsFit (points_of lib a)
  points_of-PointsFit a =
      let len = lib.elements a in
      let size = length-float_elems a 0 len in
      elim (Bool-cases (ltb 0 len && leb len 50)) [
        | inl e ↦ rw (points_of, e, size) (ground arith, ground arith)
        | inr e ↦ rw (points_of, e) tt
      ]

  load_curve-HasRoom :
      (s : S) (name : String) (c : Curve D) → HasRoom c → HasRoom (load_curve lib s name c)
  load_curve-HasRoom s name c =
      or_else-PointsFit (load_points lib s name) c
        (bind-PointsFit (lib.lookup s name) (points_of lib) points_of-PointsFit)

  load_sensor-HaveRoom :
      (cfg : S) (c : SensorConf D)
      → HaveRoom c.default_curve
      → HaveRoom (load_sensor_settings lib cfg c).default_curve
  unfolding load_sensor_settings
  load_sensor-HaveRoom cfg c h = elim (Option-cases (lib.lookup cfg "sensor")) [
    | inl e ↦ rw (load_sensor_settings, e) h
    | inr (s, e) ↦
        rw (load_sensor_settings, e)
          (
            load_curve-HasRoom s "ac_regression_points" c.default_curve.first h.0,
            load_curve-HasRoom s "batt_regression_points" c.default_curve.second h.1,
          )
  ]

  load_kbd-HaveRoom :
      (cfg : S) (c : KbdConf D) → HaveRoom c.curve → HaveRoom (load_kbd_settings lib cfg c).curve
  unfolding load_kbd_settings
  load_kbd-HaveRoom cfg c h = elim (Option-cases (lib.lookup cfg "keyboard")) [
    | inl e ↦ rw (load_kbd_settings, e) h
    | inr (s, e) ↦
        rw (load_kbd_settings, e)
          (
            load_curve-HasRoom s "ac_regression_points" c.curve.first h.0,
            load_curve-HasRoom s "batt_regression_points" c.curve.second h.1,
          )
  ]

  load_points-PointsFit : (s : S) (name : String) → PointsFit (load_points lib s name)
  load_points-PointsFit s name =
      bind-PointsFit (lib.lookup s name) (points_of lib) points_of-PointsFit

-- The curves of single monitors have room.
abbrev HaveRooms : {D : Type 0} → CurveMap D → Type 0
HaveRooms m = All (λ e. HaveRoom e.1) m

module _ {D : Type 0} ⦃f : Float D⦄
    (map_put : List ℕ → Pair (Curve D) → CurveMap D → CurveMap D) where
  module _
      (fits : (key : List ℕ) (c : Pair (Curve D)) (m : CurveMap D)
        → HaveRoom c
        → HaveRooms m
        → HaveRooms (map_put key c m)) where
    put_override-HaveRooms :
        (key : Option (List ℕ)) (ac batt : Option (List D)) (m : CurveMap D)
        → PointsFit ac
        → PointsFit batt
        → HaveRooms m
        → HaveRooms (
            put_override map_put
              (key >>= λ k. ac >>= λ a.
                batt >>= λ b. some (k, record { first = new_curve a; second = new_curve b }))
              m)
    put_override-HaveRooms none ac batt m h h' hm = hm
    put_override-HaveRooms (some k) none batt m h h' hm = hm
    put_override-HaveRooms (some k) (some a) none m h h' hm = hm
    put_override-HaveRooms (some k) (some a) (some b) m h h' hm =
        fits k (record { first = new_curve a; second = new_curve b }) m (h, h') hm

    module _ {S : Type 0} (lib : Libconfig D S) where
      load_overrides-HaveRooms :
          (s : S) (i n : ℕ) (m : CurveMap D)
          → HaveRooms m
          → HaveRooms (load_overrides lib map_put s i n m)
      unfolding load_overrides
      load_overrides-HaveRooms s i zero m h = h
      load_overrides-HaveRooms s i (suc n) m h =
          let e = lib.elem_at s i in
          load_overrides-HaveRooms s (suc i) n (put_override map_put (load_override lib e) m) (
            put_override-HaveRooms (nonempty (lib.lookup_string e "monitor_id"))
              (load_points lib e "ac_regression_points")
              (load_points lib e "batt_regression_points") m
              (load_points-PointsFit lib e "ac_regression_points")
              (load_points-PointsFit lib e "batt_regression_points") h)

      load_override-HaveRooms :
          (cfg : S) (c : SensorConf D)
          → HaveRooms c.specific_curves
          → HaveRooms (load_override_settings lib map_put cfg c).specific_curves
      unfolding load_override_settings
      load_override-HaveRooms cfg c h = elim (Option-cases (lib.lookup cfg "monitor_override")) [
        | inl e ↦ rw (load_override_settings, e) h
        | inr (s, e) ↦
            rw (load_override_settings, e)
              (load_overrides-HaveRooms s 0 (lib.elements s) c.specific_curves h)
      ]

      load_override-default :
          (cfg : S) (c : SensorConf D)
          → (load_override_settings lib map_put cfg c).default_curve ≡ c.default_curve
      unfolding load_override_settings
      load_override-default cfg c = elim (Option-cases (lib.lookup cfg "monitor_override")) [
        | inl e ↦ rw (load_override_settings, e) refl
        | inr (s, e) ↦ rw (load_override_settings, e) refl
      ]

      load_sensor-specific :
          (cfg : S) (c : SensorConf D)
          → (load_sensor_settings lib cfg c).specific_curves ≡ c.specific_curves
      unfolding load_sensor_settings
      load_sensor-specific cfg c = elim (Option-cases (lib.lookup cfg "sensor")) [
        | inl e ↦ rw (load_sensor_settings, e) refl
        | inr (s, e) ↦ rw (load_sensor_settings, e) refl
      ]

      -- Where a map's entries have between 1 and 50 points once a curve that has is put into it: if each curve
      -- of a configuration has between 1 and 50 points, so it is after any file is read over it, also a file
      -- that is not there or cannot be parsed.
      pub read_config-HasRooms :
          (cfg : Option S) (c : Conf D) → HasRooms c → HasRooms ((read_config lib map_put cfg c).0)
      unfolding read_config load_settings
      read_config-HasRooms none c h = h
      read_config-HasRooms (some cfg) c h =
          let sens = load_sensor_settings lib cfg c.sens_conf in
          record {
            sensor =
                rw (load_override-default cfg sens)
                  (load_sensor-HaveRoom lib cfg c.sens_conf h.sensor);
            monitors =
                load_override-HaveRooms cfg sens
                  (rw (load_sensor-specific cfg c.sens_conf) h.monitors);
            keyboard = load_kbd-HaveRoom lib cfg c.kbd_conf h.keyboard;
          }
