-- ===== src/Modules/IdleClient.antt =====
-- What modules/dimmer.c and modules/dpms.c do alike: a module that owns an idle client, which it runs
-- unless a reason pauses it.
pub mod Synced
pub mod Reasons
use clight.Prelude.{
  ℕ, Bool, true, false, Option, some, List, [], ◌∷◌, ◌++◌, if◌then◌else◌, ◌>>=◌, leb_ℤ, ◌==ℤ◌, ℤ,
  pos,
}
use clight.Public.{at, put, Pair, TimeoutUpd}
use clight.Commons.{State, paused, Effect, become, unbecome, deregister}
use clight.Utils.Pause.{mod_check_pause, ModPause, timeout}
use clight.Utils.Idler.{
  idle_client_start, idle_client_stop, idle_set_timeout, idle_client_reset, idle_init,
}
use clight.Pubsub.Validations.{validate_timeout}

-- The client, the reasons for a pause, and the module's `conf.….timeout`.
pub record IdleModule : Type 0 where
  pub client : Bool
  pub paused_state : ℕ
  pub timeouts : Pair ℤ

module _ {D : Type 0} where
  unfoldable pub pause_dimmer :
      Bool → ModPause → State D → IdleModule → Option (IdleModule × List (Effect D))
  unfolding idle_client_start idle_client_stop
  pause_dimmer pause reason s m =
      let (p, woken) = mod_check_pause pause m.paused_state reason in
      let m' = record m { paused_state = p } in
      if woken
      then (if pause
          then some (m', idle_client_stop m.client ++ (become paused ∷ []))
          else (at m.timeouts s.ac_state >>= λ t.
              some (m', idle_client_start m.client t ++ (unbecome ∷ []))))
      else some (m', [])

  unfoldable pub timeout_callback : State D → IdleModule → Option (IdleModule × List (Effect D))
  unfolding idle_set_timeout
  timeout_callback s m = do
    t ← at m.timeouts s.ac_state
    (if leb_ℤ t (pos 0)
        then pause_dimmer true timeout s m
        else (pause_dimmer false timeout s m >>= λ (m', es).
            some (m', es ++ idle_set_timeout m'.client t s)))

  -- `DIMMER_TO_REQ`, `DPMS_TO_REQ`: the same in `receive` and in `receive_paused`.
  unfoldable pub on_to_req :
      TimeoutUpd → State D → IdleModule → Option (IdleModule × List (Effect D))
  on_to_req up s m =
      let (valid, up') = validate_timeout s up in
      if valid
      then (do
        timeouts ← put m.timeouts up'.state up'.new
        let m' = record m { timeouts = timeouts }
        (if up'.state ==ℤ s.ac_state then timeout_callback s m' else some (m', [])))
      else some (m, [])

  unfoldable pub on_simulate_req : State D → IdleModule → Option (IdleModule × List (Effect D))
  unfolding idle_client_reset
  on_simulate_req s m = do t ← at m.timeouts s.ac_state; some (m, idle_client_reset m.client t)

  -- `UPOWER_UPD` while the module waits for it; on a failure the module is deregistered.
  unfoldable pub on_first_upower :
      Bool → Bool → List (Effect D) → State D → IdleModule → Option (IdleModule × List (Effect D))
  unfolding idle_init
  on_first_upower got_client hooked matches s m =
      let (client, ok) = idle_init got_client hooked in
      let m' = record m { client = client } in
      if ok
      then (do (m'', es) ← timeout_callback s m'; some (m'', unbecome ∷ (matches ++ es)))
      else some (m', deregister ∷ [])
