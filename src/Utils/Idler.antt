-- ===== src/Utils/Idler.antt =====
-- utils/idler.c: the idle clients of clightd. `client` tells that the client's path is not empty; the
-- results of these calls are used by no caller but that of `idle_init`.
use clight.Prelude.{Bool, ◌&&◌, List, [], ◌∷◌, ◌++◌, if◌then◌else◌, ltb_ℤ, ℤ, pos}
use clight.Commons.{State, client_timeout, client_start, client_stop, client_destroy, Effect, bus}

module _ {D : Type 0} where
  unfoldable pub idle_client_start : Bool → ℤ → List (Effect D)
  idle_client_start client timeout =
      if client && ltb_ℤ (pos 0) timeout then bus client_start ∷ [] else []

  unfoldable pub idle_client_stop : Bool → List (Effect D)
  idle_client_stop client = if client then bus client_stop ∷ [] else []

  unfoldable pub idle_set_timeout : Bool → ℤ → State D → List (Effect D)
  unfolding idle_client_start idle_client_stop
  idle_set_timeout client timeout s =
      if client
      then (if ltb_ℤ (pos 0) timeout
          then bus (client_timeout timeout)
            ∷ (if s.inhibited then [] else idle_client_start client timeout)
          else idle_client_stop client)
      else []

  unfoldable pub idle_client_reset : Bool → ℤ → List (Effect D)
  unfolding idle_client_start idle_client_stop
  idle_client_reset client timeout = idle_client_stop client ++ idle_client_start client timeout

  unfoldable pub idle_client_destroy : Bool → List (Effect D)
  unfolding idle_client_stop
  idle_client_destroy client =
      if client then idle_client_stop client ++ (bus client_destroy ∷ []) else []

-- Whether clightd gave a client, and whether its signal could be hooked; returns the client and
-- whether all went well.
unfoldable pub idle_init : Bool → Bool → Bool × Bool
idle_init got_client hooked = (got_client && hooked, got_client && hooked)
