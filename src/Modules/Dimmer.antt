-- ===== src/Modules/Dimmer.antt =====
-- modules/dimmer.c: dims the display when the user is idle.
pub mod Synced
use clight.Prelude.{Bool, false, Option, some, List, [], ◌∷◌, if◌then◌else◌, pos}
use clight.Public.{
  display_on, display_dimmed, upower_upd, inhibit_upd, display_req, dimmer_to_req, simulate_req,
  suspend_upd,
}
use clight.Commons.{State, Effect, publish, Input, user}
use clight.Utils.Pause.{suspend, inhibit}
use clight.Modules.IdleClient.{
  pause_dimmer, timeout_callback, on_to_req, on_simulate_req, on_first_upower, IdleModule,
}

module _ {D : Type 0} where
  unfoldable pub receive_waiting_acstate :
      Bool → Bool → Input D → State D → IdleModule → Option (IdleModule × List (Effect D))
  receive_waiting_acstate got_client hooked (user from (upower_upd up)) s m =
      on_first_upower got_client hooked [] s m
  receive_waiting_acstate got_client hooked _ s m = some (m, [])

  unfoldable pub receive : Input D → State D → IdleModule → Option (IdleModule × List (Effect D))
  receive (user from (upower_upd up)) s m = timeout_callback s m
  receive (user from (inhibit_upd up)) s m = pause_dimmer s.inhibited inhibit s m
  receive (user from (suspend_upd up)) s m = pause_dimmer s.suspended suspend s m
  receive (user from (dimmer_to_req up)) s m = on_to_req up s m
  receive (user from simulate_req) s m = on_simulate_req s m
  receive _ s m = some (m, [])

  unfoldable pub receive_paused :
      Input D → State D → IdleModule → Option (IdleModule × List (Effect D))
  receive_paused (user from (upower_upd up)) s m = timeout_callback s m
  receive_paused (user from (inhibit_upd up)) s m = pause_dimmer s.inhibited inhibit s m
  receive_paused (user from (suspend_upd up)) s m = pause_dimmer s.suspended suspend s m
  receive_paused (user from (dimmer_to_req up)) s m = on_to_req up s m
  receive_paused _ s m = some (m, [])

  -- The client's signal.
  unfoldable pub on_new_idle : Bool → State D → List (Effect D)
  on_new_idle idle s =
      publish (
        display_req (record {
          old = pos s.display_state;
          new = if idle then pos display_dimmed else pos display_on;
          no_backlight = false;
        }))
      ∷ []
