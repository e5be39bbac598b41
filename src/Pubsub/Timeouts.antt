-- ===== src/Pubsub/Timeouts.antt =====
-- What the check of a timeout request gives to the module that stores it.
use clight.Prelude.{◌≡◌, true, arith}
use clight.Public.{InPair, TimeoutUpd}
use clight.Commons.{State}
use clight.Pubsub.Validations.{validate_timeout}

module _ {D : Type 0} (s : State D) (up : TimeoutUpd) where
  -- A request that passes names one of the two states of the power supply.
  pub validate_timeout-InPair :
      (validate_timeout s up).0 ≡ true → InPair (validate_timeout s up).1.state
  unfolding validate_timeout
  validate_timeout-InPair h = ground arith
