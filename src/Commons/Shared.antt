-- ===== src/Commons/Shared.antt =====
-- commons.h: `state_t`, less the version texts and the jump buffer.
use clight.Prelude.{ℕ, Bool, ℤ}
use clight.Public.{Pair, Loc}

pub record State (D : Type 0) : Type 0 where
  pub screen_br : D
  pub in_event : Bool
  pub inhibited : Bool
  pub pm_inhibited : Bool
  pub sens_avail : ℤ
  pub suspended : Bool
  pub day_time : ℤ
  pub ac_state : ℤ
  pub lid_state : ℤ
  pub display_state : ℕ
  pub next_event : ℤ
  pub event_time_range : ℤ
  pub current_temp : ℤ
  pub day_events : Pair ℤ
  pub current_loc : Loc D
  pub current_bl_pct : D
  pub current_kbd_pct : D
  pub ambient_br : D
