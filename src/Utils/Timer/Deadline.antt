-- ===== src/Utils/Timer/Deadline.antt =====
-- What `reset_timer` is for, over the unbounded integers.
use clight.Prelude.{
  ◌≡◌, List, [], ◌∷◌, arith, if◌then◌else◌, ◌-ℤ◌, ◌≤ℤ◌, ◌<ℤ◌, ltb_ℤ, leb_ℤ, ◌==ℤ◌, ℤ, pos, negsuc,
}
use clight.Commons.{Fd, Effect, settime}
use clight.Utils.Timer.{reset_timer}

-- The timer was armed `old - left` seconds ago for `old` seconds; it must fire `new` seconds after it
-- was armed, at once if that is past, and never if `new` is not positive.
abbrev pub move_deadline : {D : Type 0} → Fd → ℤ → ℤ → ℤ → List (Effect D)
move_deadline fd left old new =
    if leb_ℤ new (pos 0)
    then settime fd (pos 0) (pos 0) ∷ []
    else if leb_ℤ old (pos 0)
    then settime fd new (pos 0) ∷ []
    else if left ==ℤ pos 0
    then []
    else if ltb_ℤ (old -ℤ left) new
    then settime fd (new -ℤ (old -ℤ left)) (pos 0) ∷ []
    else settime fd (pos 0) (pos 1) ∷ []

-- For two timeouts of 32 bits whose difference has 32 bits too, and a timer with no more left than its
-- old timeout, the wrap-around in `reset_timer` does no harm: it moves the deadline.
pub reset_timer-move_deadline :
    {D : Type 0} (fd : Fd) (left old new : ℤ)
    → old <ℤ pos 2147483648
    → new <ℤ pos 2147483648
    → pos 0 ≤ℤ left
    → left ≤ℤ (if leb_ℤ old (pos 0) then pos 0 else old)
    → negsuc 2147483647 ≤ℤ (new -ℤ (if leb_ℤ old (pos 0) then pos 0 else old))
    → reset_timer {D = D} fd left old new ≡ move_deadline {D = D} fd left old new
unfolding reset_timer ◌-ℤ◌
reset_timer-move_deadline fd left old new h1 h2 h3 h4 h5 = ground arith
