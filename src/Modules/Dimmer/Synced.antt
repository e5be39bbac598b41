-- ===== src/Modules/Dimmer/Synced.antt =====
-- The handlers of modules/dimmer.c keep the stack of handlers in step with the reasons for a pause.
use clight.Prelude.{List}
use clight.Public.{InPair, upower_upd, inhibit_upd, dimmer_to_req, simulate_req, suspend_upd}
use clight.Commons.{State, Input, user, IsSynced, Libmodule}
use clight.Utils.Pause.{suspend, inhibit}
use clight.Modules.IdleClient.{IdleModule}
use clight.Modules.IdleClient.Synced.{
  Kept, pause_dimmer-Kept, timeout_callback-Kept, on_to_req-Kept, on_simulate_req-Kept, PowerKnown,
  EndsSynced, handle_all, handle_all-EndsSynced,
}
use clight.Modules.Dimmer.{receive, receive_paused}

module _ {D S : Type 0} (lib : Libmodule S) (base : S) where
  receive-Kept :
      (i : Input D) (s : State D) (m : IdleModule) (st : S)
      → InPair s.ac_state
      → IsSynced lib base m.paused_state st
      → Kept lib base st (receive i s m)
  unfolding receive
  receive-Kept (user from (upower_upd up)) s m st a h = timeout_callback-Kept lib base st s m a h
  receive-Kept (user from (inhibit_upd up)) s m st a h =
      pause_dimmer-Kept lib base st s.inhibited inhibit s m a h
  receive-Kept (user from (suspend_upd up)) s m st a h =
      pause_dimmer-Kept lib base st s.suspended suspend s m a h
  receive-Kept (user from (dimmer_to_req up)) s m st a h = on_to_req-Kept lib base st up s m a h
  receive-Kept (user from simulate_req) s m st a h = on_simulate_req-Kept lib base st s m a h
  receive-Kept _ s m st a h = h

  receive_paused-Kept :
      (i : Input D) (s : State D) (m : IdleModule) (st : S)
      → InPair s.ac_state
      → IsSynced lib base m.paused_state st
      → Kept lib base st (receive_paused i s m)
  unfolding receive_paused
  receive_paused-Kept (user from (upower_upd up)) s m st a h =
      timeout_callback-Kept lib base st s m a h
  receive_paused-Kept (user from (inhibit_upd up)) s m st a h =
      pause_dimmer-Kept lib base st s.inhibited inhibit s m a h
  receive_paused-Kept (user from (suspend_upd up)) s m st a h =
      pause_dimmer-Kept lib base st s.suspended suspend s m a h
  receive_paused-Kept (user from (dimmer_to_req up)) s m st a h =
      on_to_req-Kept lib base st up s m a h
  receive_paused-Kept _ s m st a h = h

  -- From a stack of handlers that is in step with the reasons for a pause, whatever comes while the
  -- state of the power supply is known: the handlers return without a read or a write out of bounds,
  -- and in the end `receive_paused` is on top of the stack, once, if a reason pauses the module, and the
  -- stack is its base otherwise.
  pub dimmer-synced :
      (is : List (Input D × State D)) (m : IdleModule) (st : S)
      → PowerKnown is
      → IsSynced lib base m.paused_state st
      → EndsSynced lib base (handle_all lib receive receive_paused is m st)
  dimmer-synced =
      handle_all-EndsSynced lib receive receive_paused base receive-Kept receive_paused-Kept
