-- ===== src/Commons/Config.antt =====
-- commons.h: the configuration. An `int` that only holds a truth value is a `Bool`.
use clight.Prelude.{
  ℕ, Bool, ◌&&◌, Option, none, some, List, if◌then◌else◌, length, take, pos_part, leb_ℤ, ℤ, pos,
}
use clight.Public.{Pair, Loc}

-- The operations on `double` that the code uses. `literal n k` is the double nearest to n / k.
pub record Float (D : Type 0) : Type 0 where
  pub lt : D → D → Bool
  pub le : D → D → Bool
  pub eq : D → D → Bool
  pub add : D → D → D
  pub sub : D → D → D
  pub mul : D → D → D
  pub div : D → D → D
  pub fabs : D → D
  pub literal : ℤ → ℕ → D
  pub truncate : D → ℤ

-- `curve_t`: the first `num_points` of `points`, so that `num_points` is their length.
pub record Curve (D : Type 0) : Type 0 where
  pub points : List D
  pub fit_parameters : D × D × D

-- `MAX_SIZE_POINTS`, the length of the array of a `curve_t`.
abbrev pub max_size_points : ℤ
max_size_points = pos 50

-- `memcpy` of `n` doubles into such an array: a fault where it writes past the array's end, or reads
-- past the source's. A negative `n` is a huge `size_t`.
unfoldable pub copy_points : {D : Type 0} → ℤ → List D → Option (List D)
copy_points n src =
    if leb_ℤ (pos 0) n && (leb_ℤ n max_size_points && leb_ℤ n (pos (length src)))
    then some (take (pos_part n) src)
    else none

pub record BlSmooth (D : Type 0) : Type 0 where
  pub no_smooth : Bool
  pub trans_step : D
  pub trans_timeout : ℤ
  pub trans_fixed : ℤ

-- A row of `timeout[SIZE_AC][SIZE_STATES + 1]`: by day, by night, and in an event.
pub record DayTimeouts : Type 0 where
  pub by_day : ℤ
  pub by_night : ℤ
  pub by_event : ℤ

pub record SensorConf (D : Type 0) : Type 0 where
  pub num_captures : Pair ℤ
  pub dev_name : Option (List ℕ)
  pub dev_opts : Option (List ℕ)
  pub default_curve : Pair (Curve D)
  pub specific_curves : List (List ℕ × Pair (Curve D))

pub record BlConf (D : Type 0) : Type 0 where
  pub disabled : Bool
  pub timeout : Pair DayTimeouts
  pub smooth : BlSmooth D
  pub no_auto_calib : Bool
  pub shutter_threshold : D
  pub pause_on_lid_closed : Bool
  pub capture_on_lid_opened : Bool
  pub restore : Bool
  pub sync_monitors_delay : ℤ

pub record KbdConf (D : Type 0) : Type 0 where
  pub disabled : Bool
  pub timeout : Pair ℤ
  pub curve : Pair (Curve D)

pub record GammaConf : Type 0 where
  pub disabled : Bool
  pub temp : Pair ℤ
  pub no_smooth : Bool
  pub trans_step : ℤ
  pub trans_timeout : ℤ
  pub long_transition : Bool
  pub ambient_gamma : Bool
  pub restore : Bool

pub record DaytimeConf (D : Type 0) : Type 0 where
  pub day_events : Pair (List ℕ)
  pub event_duration : ℤ
  pub loc : Loc D
  pub events_os : Pair ℤ

-- `smooth[SIZE_DIM]` is the two fields `smooth_enter` and `smooth_exit`.
pub record DimmerConf (D : Type 0) : Type 0 where
  pub disabled : Bool
  pub dimmed_pct : D
  pub timeout : Pair ℤ
  pub smooth_enter : BlSmooth D
  pub smooth_exit : BlSmooth D

pub record DpmsConf : Type 0 where
  pub disabled : Bool
  pub timeout : Pair ℤ

pub record ScreenConf (D : Type 0) : Type 0 where
  pub disabled : Bool
  pub contrib : D
  pub timeout : Pair ℤ

pub record InhConf : Type 0 where
  pub disabled : Bool
  pub inhibit_docked : Bool
  pub inhibit_pm : Bool
  pub inhibit_bl : Bool

pub record Conf (D : Type 0) : Type 0 where
  pub bl_conf : BlConf D
  pub sens_conf : SensorConf D
  pub kbd_conf : KbdConf D
  pub gamma_conf : GammaConf
  pub day_conf : DaytimeConf D
  pub dim_conf : DimmerConf D
  pub dpms_conf : DpmsConf
  pub screen_conf : ScreenConf D
  pub inh_conf : InhConf
  pub verbose : Bool
  pub wizard : Bool
  pub resumedelay : ℤ
