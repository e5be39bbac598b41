-- ===== src/Modules/Inhibit.antt =====
-- modules/inhibit.c: the inhibitions that are held on the screen saver, counted in `inhibition_ctr`.
pub mod Refinement
use clight.Prelude.{false, not, ◌&&◌, ◌||◌, List, [], ◌∷◌, if◌then◌else◌, ◌+ℤ◌, ◌-ℤ◌, ◌==ℤ◌, ℤ, pos}
use clight.Public.{InhibitUpd, inhibit_upd, inhibit_req}
use clight.Commons.{State, Effect, publish, Input, user}
use clight.Pubsub.Validations.{validate_inhibit}

-- The counter, the shared state, and the calls made.
unfoldable pub on_inhibit_req :
    {D : Type 0} → InhibitUpd → ℤ → State D → ℤ × State D × List (Effect D)
unfolding validate_inhibit ◌+ℤ◌ ◌-ℤ◌
on_inhibit_req up inhibition_ctr s =
    let valid = validate_inhibit s up in
    let ctr =
      if valid && not up.new
      then (if up.force then pos 0 else inhibition_ctr -ℤ pos 1)
      else inhibition_ctr in
    let changes = valid && (up.new || (ctr ==ℤ pos 0)) in
    let msg : InhibitUpd = record { old = s.inhibited; new = up.new; force = false } in
    (
      if up.new then ctr +ℤ pos 1 else ctr,
      if changes then record s { inhibited = up.new } else s,
      if changes then publish (inhibit_upd msg) ∷ [] else [],
    )

unfoldable pub receive : {D : Type 0} → Input D → ℤ → State D → ℤ × State D × List (Effect D)
unfolding on_inhibit_req
receive (user from (inhibit_req up)) ctr s = on_inhibit_req up ctr s
receive _ ctr s = (ctr, s, [])
