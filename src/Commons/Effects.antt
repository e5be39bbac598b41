-- ===== src/Commons/Effects.antt =====
-- What a module asks of libmodule, of the kernel's timers and of D-Bus, as values: a handler returns
-- the list of its calls in order. What such a call returns is an argument of the handler.
use clight.Prelude.{ℕ, Bool, Option, List, ℤ}
use clight.Public.{Message}

-- The descriptors that the modules register.
pub data Fd : Type 0 where
  day_fd : Fd
  bl_fd : Fd
  delayed_fd : Fd
  delayed_resume_fd : Fd
  screen_fd : Fd
  timeout_fd : Fd
  stdin_fd : Fd

-- The message handlers that a module may put in place of `receive`.
pub data Receiver : Type 0 where
  paused : Receiver
  waiting_acstate : Receiver
  waiting_init : Receiver
  waiting_daytime : Receiver
  waiting_state : Receiver
  waiting_loc : Receiver
  waiting_sens : Receiver
  capturing : Receiver
  calibrating : Receiver

pub data ModuleName : Type 0 where
  daytime_module : ModuleName
  other_module : ModuleName

-- The calls on the bus, and the signals that are listened to.
pub data BusCall (D : Type 0) : Type 0 where
  client_timeout : ℤ → BusCall D
  client_start : BusCall D
  client_stop : BusCall D
  client_destroy : BusCall D
  dpms_set : Bool → BusCall D
  set_idle_hint : ℕ → BusCall D
  gamma_set : ℤ → ℤ → ℤ → ℤ → BusCall D
  backlight_set : D → D → ℤ → BusCall D
  monitor_backlight_set : List ℕ → D → D → ℤ → BusCall D
  sensor_capture : ℤ → BusCall D
  sensor_is_available : BusCall D
  backlight_get : BusCall D
  screen_brightness : BusCall D
  kbd_set : D → BusCall D
  kbd_set_timeout : ℤ → BusCall D
  systemd_inhibit : BusCall D
  systemd_release : BusCall D
  pm_inhibit : BusCall D
  pm_uninhibit : BusCall D
  match_signal : BusCall D
  unmatch_signal : BusCall D

pub data Effect (D : Type 0) : Type 0 where
  publish : Message D → Effect D
  become : Receiver → Effect D
  unbecome : Effect D
  deregister : Effect D
  stop : Effect D
  register_fd : Fd → Option (Message D) → Effect D
  subscribe_ambient_br : Effect D
  deregister_fd : Fd → Effect D
  settime : Fd → ℤ → ℤ → Effect D
  bus : BusCall D → Effect D

-- What a module receives, besides messages: a descriptor that is ready, with
-- the pointer that it was registered with (`none` is null), or a change of the loop.
pub data Input (D : Type 0) : Type 0 where
  fd_upd : Fd → Option (Message D) → Input D
  loop_started : Input D
  loop_stopped : Input D
  user : ModuleName → Message D → Input D
