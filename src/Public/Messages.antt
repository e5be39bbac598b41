-- ===== src/Public/Messages.antt =====
-- public.h: the payloads and the types of messages.
use clight.Prelude.{ℕ, Bool, Option, List, ℤ}

-- `loc_t`.
pub record Loc (D : Type 0) : Type 0 where
  pub lat : D
  pub lon : D

pub record LocUpd (D : Type 0) : Type 0 where
  pub old : Loc D
  pub new : Loc D

pub record UpowerUpd : Type 0 where
  pub old : ℤ
  pub new : ℤ

pub record LidUpd : Type 0 where
  pub old : ℤ
  pub new : ℤ

pub record InhibitUpd : Type 0 where
  pub old : Bool
  pub new : Bool
  pub force : Bool

pub record PmUpd : Type 0 where
  pub old : Bool
  pub new : Bool

pub record SuspendUpd : Type 0 where
  pub old : Bool
  pub new : Bool
  pub force : Bool

pub record DisplayUpd : Type 0 where
  pub old : ℤ
  pub new : ℤ
  pub no_backlight : Bool

pub record DaytimeUpd : Type 0 where
  pub old : ℤ
  pub new : ℤ

-- `event` is the text before its terminating zero.
pub record EvtUpd : Type 0 where
  pub old : ℤ
  pub new : ℤ
  pub event : List ℕ

pub record NextdayevtUpd : Type 0 where
  pub old : ℤ
  pub new : ℤ

pub record TempUpd : Type 0 where
  pub daytime : ℤ
  pub old : ℤ
  pub new : ℤ
  pub smooth : ℤ
  pub step : ℤ
  pub timeout : ℤ

pub record TimeoutUpd : Type 0 where
  pub new : ℤ
  pub state : ℤ
  pub daytime : ℤ

-- `regression_points` is `none` for a null pointer.
pub record CurveUpd (D : Type 0) : Type 0 where
  pub state : ℤ
  pub num_points : ℤ
  pub regression_points : Option (List D)

pub record CalibUpd : Type 0 where
  pub new : Bool

pub record CaptureUpd : Type 0 where
  pub reset_timer : Bool
  pub capture_only : Bool

pub record BlUpd (D : Type 0) : Type 0 where
  pub old : D
  pub new : D
  pub smooth : ℤ
  pub timeout : ℤ
  pub step : D

pub record ContribUpd (D : Type 0) : Type 0 where
  pub new : D

pub record SensUpd : Type 0 where
  pub old : Bool
  pub new : Bool

pub record AmbgammaUpd : Type 0 where
  pub old : Bool
  pub new : Bool

-- `message_t`, by its type.
pub data Message (D : Type 0) : Type 0 where
  loc_upd : LocUpd D → Message D
  upower_upd : UpowerUpd → Message D
  inhibit_upd : InhibitUpd → Message D
  display_upd : DisplayUpd → Message D
  daytime_upd : DaytimeUpd → Message D
  in_event_upd : DaytimeUpd → Message D
  sunrise_upd : EvtUpd → Message D
  sunset_upd : EvtUpd → Message D
  temp_upd : TempUpd → Message D
  ambient_br_upd : BlUpd D → Message D
  bl_upd : BlUpd D → Message D
  kbd_bl_upd : BlUpd D → Message D
  scr_bl_upd : BlUpd D → Message D
  location_req : LocUpd D → Message D
  upower_req : UpowerUpd → Message D
  inhibit_req : InhibitUpd → Message D
  display_req : DisplayUpd → Message D
  sunrise_req : EvtUpd → Message D
  sunset_req : EvtUpd → Message D
  temp_req : TempUpd → Message D
  bl_req : BlUpd D → Message D
  kbd_bl_req : BlUpd D → Message D
  dimmer_to_req : TimeoutUpd → Message D
  dpms_to_req : TimeoutUpd → Message D
  scr_to_req : TimeoutUpd → Message D
  bl_to_req : TimeoutUpd → Message D
  capture_req : CaptureUpd → Message D
  curve_req : CurveUpd D → Message D
  no_autocalib_req : CalibUpd → Message D
  contrib_req : ContribUpd D → Message D
  simulate_req : Message D
  lid_upd : LidUpd → Message D
  lid_req : LidUpd → Message D
  pm_upd : PmUpd → Message D
  pm_req : PmUpd → Message D
  sens_upd : SensUpd → Message D
  next_dayevt_upd : NextdayevtUpd → Message D
  suspend_upd : SuspendUpd → Message D
  suspend_req : SuspendUpd → Message D
  kbd_to_req : TimeoutUpd → Message D
  amb_gamma_req : AmbgammaUpd → Message D
  kbd_curve_req : CurveUpd D → Message D
  screen_br_upd : BlUpd D → Message D
  no_autocalib_upd : CalibUpd → Message D
