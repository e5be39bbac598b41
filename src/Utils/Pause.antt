-- ===== src/Utils/Pause.antt =====
-- utils/utils.h and utils/utils.c: the set of reasons for which a module is paused, as bits of an
-- `int`. `mod_check_pause` returns the new `*paused_state` and its result.
pub mod Bits
pub mod Runs
use clight.Prelude.{ℕ, ◌-◌, bit_and, bit_or, Bool, not, ◌&&◌, ◌==◌, if◌then◌else◌}

pub data ModPause : Type 0 where
  display : ModPause
  sensor : ModPause
  autocalib : ModPause
  lid : ModPause
  suspend : ModPause
  timeout : ModPause
  inhibit : ModPause
  contrib : ModPause
  clogged : ModPause

abbrev pub mask : ModPause → ℕ
mask display = 1
mask sensor = 2
mask autocalib = 4
mask lid = 8
mask suspend = 16
mask timeout = 32
mask inhibit = 64
mask contrib = 128
mask clogged = 256

abbrev pub unpaused : ℕ
unpaused = 0

-- `~reason`, on 32 bits.
abbrev pub complement : ℕ → ℕ
complement m = 4294967295 - m

unfoldable pub mod_check_pause : Bool → ℕ → ModPause → ℕ × Bool
mod_check_pause pause old_paused reason =
    let released = bit_and old_paused (complement (mask reason)) in
    if pause
    then (bit_or old_paused (mask reason), old_paused == unpaused)
    else (released, not (old_paused == unpaused) && (released == unpaused))
