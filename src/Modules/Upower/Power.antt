-- ===== src/Modules/Upower/Power.antt =====
-- The state of the power supply.
use clight.Prelude.{◌≡◌, Bool, not, ◌&&◌, [], ◌∷◌, arith, if◌then◌else◌, ◌==ℤ◌}
use clight.Public.{in_pair, InPair, UpowerUpd, upower_upd, upower_req}
use clight.Commons.{Conf, State, ModuleName, publish, user}
use clight.Modules.Upower.{receive, Properties}

module _ {D : Type 0} (c : Conf D) (ping hooked : Bool) (p : Properties) where
  -- A request is announced exactly when it changes the state, with the state before and after; it
  -- changes the state exactly when it is for one of the two states and not for the current one; and a
  -- state that is one of the two stays so.
  pub upower_req-announces :
      (from : ModuleName) (up : UpowerUpd) (s : State D)
      → let (s', es) = receive c ping hooked p (user from (upower_req up)) s in
        (es ≡ (
          if s.ac_state ==ℤ s'.ac_state
          then []
          else publish (upower_upd (record { old = s.ac_state; new = s'.ac_state })) ∷ []))
        × ((s.ac_state ==ℤ s'.ac_state) ≡ not (in_pair up.new && not (s.ac_state ==ℤ up.new)))
        × (InPair s.ac_state → InPair s'.ac_state)
  unfolding receive
  upower_req-announces from up s = ground arith
