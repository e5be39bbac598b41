-- ===== src/Utils/Timer.antt =====
-- utils/timer.c: arming a timer, and moving its deadline when the timeout it was armed for changes.
-- `int` and `unsigned int` have 32 bits, and `time_t` is not bounded.
pub mod Deadline
use clight.Prelude.{
  ℕ, ◌+◌, ◌-◌, ◌%◌, ◌&&◌, List, [], ◌∷◌, ltb, if◌then◌else◌, ◌-ℤ◌, ltb_ℤ, leb_ℤ, ◌==ℤ◌, ℤ, pos,
  negsuc,
}
use clight.Commons.{Fd, Effect, settime}

abbrev pub u32_mod : ℕ
u32_mod = 4294967296

-- A conversion to `unsigned int`, and one of an `unsigned int` to `int`.
unfoldable pub u32 : ℤ → ℕ
u32 (pos n) = n % u32_mod
u32 (negsuc n) = u32_mod - 1 - n % u32_mod

unfoldable pub i32 : ℕ → ℤ
i32 n = if ltb n 2147483648 then pos n else negsuc (u32_mod - 1 - n)

unfoldable pub set_timeout : {D : Type 0} → ℤ → ℤ → Fd → Effect D
set_timeout sec nsec fd = settime fd (if ltb_ℤ sec (pos 0) then pos 0 else sec) nsec

-- `fd_timeout` is what `get_timeout_sec` returns: the seconds left on the timer, 0 on an error.
unfoldable pub reset_timer : {D : Type 0} → Fd → ℤ → ℤ → ℤ → List (Effect D)
unfolding u32 i32 set_timeout
reset_timer fd fd_timeout old_timer new_timer =
    if leb_ℤ old_timer (pos 0)
    then set_timeout new_timer (pos 0) fd ∷ []
    else if (fd_timeout ==ℤ pos 0) && ltb_ℤ (pos 0) new_timer
    then []
    else let elapsed = u32 (old_timer -ℤ fd_timeout) in
      if ltb elapsed (u32 new_timer)
      then set_timeout (i32 ((u32 new_timer + u32_mod - elapsed) % u32_mod)) (pos 0) fd ∷ []
      else if ltb_ℤ (pos 0) new_timer
      then set_timeout (pos 0) (pos 1) fd ∷ []
      else set_timeout (pos 0) (pos 0) fd ∷ []
