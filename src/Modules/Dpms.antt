-- ===== src/Modules/Dpms.antt =====
-- modules/dpms.c: switches the display off when the user is idle.
pub mod Synced
use clight.Prelude.{
  Bool, true, false, Option, none, some, List, [], ◌∷◌, if◌then◌else◌, ltb_ℤ, ℤ, pos,
}
use clight.Public.{
  display_on, display_off, DisplayUpd, upower_upd, inhibit_upd, display_req, dpms_to_req,
  simulate_req, suspend_upd,
}
use clight.Commons.{State, dpms_set, match_signal, Effect, publish, bus, Input, user}
use clight.Utils.Pause.{ModPause, suspend, inhibit}
use clight.Modules.IdleClient.{
  pause_dimmer, timeout_callback, on_to_req, on_simulate_req, on_first_upower, IdleModule,
}

module _ {D : Type 0} where
  -- `pause_dpms` and `timeout_callback` are word for word those of the dimmer.
  unfoldable pub pause_dpms :
      Bool → ModPause → State D → IdleModule → Option (IdleModule × List (Effect D))
  pause_dpms = pause_dimmer

  unfoldable pub receive_waiting_acstate :
      Bool → Bool → Input D → State D → IdleModule → Option (IdleModule × List (Effect D))
  receive_waiting_acstate got_client hooked (user from (upower_upd up)) s m =
      on_first_upower got_client hooked (bus match_signal ∷ []) s m
  receive_waiting_acstate got_client hooked _ s m = some (m, [])

  unfoldable pub receive : Input D → State D → IdleModule → Option (IdleModule × List (Effect D))
  unfolding pause_dpms
  receive (user from (upower_upd up)) s m = timeout_callback s m
  receive (user from (inhibit_upd up)) s m = pause_dpms s.inhibited inhibit s m
  receive (user from (suspend_upd up)) s m = pause_dpms s.suspended suspend s m
  receive (user from (dpms_to_req up)) s m = on_to_req up s m
  receive (user from simulate_req) s m = on_simulate_req s m
  receive _ s m = some (m, [])

  unfoldable pub receive_paused :
      Input D → State D → IdleModule → Option (IdleModule × List (Effect D))
  unfolding pause_dpms
  receive_paused (user from (upower_upd up)) s m = timeout_callback s m
  receive_paused (user from (inhibit_upd up)) s m = pause_dpms s.inhibited inhibit s m
  receive_paused (user from (suspend_upd up)) s m = pause_dpms s.suspended suspend s m
  receive_paused (user from (dpms_to_req up)) s m = on_to_req up s m
  receive_paused _ s m = some (m, [])

  -- The client's signal, and clightd's `Changed`, which counts for the own display only: `changed` is
  -- `some (own_display(display), level)` for the latter.
  unfoldable pub on_new_idle : Option (Bool × ℤ) → Bool → State D → List (Effect D)
  on_new_idle changed idle s =
      let known : Bool = elim changed [ none ↦ true | some (own, level) ↦ own ] in
      let is_idle : Bool = elim changed [ none ↦ idle | some (own, level) ↦ ltb_ℤ (pos 0) level ] in
      let msg : DisplayUpd = record {
        old = pos s.display_state;
        new = if is_idle then pos display_off else pos display_on;
        no_backlight = false;
      } in
      if known then publish (display_req msg) ∷ [] else []

  unfoldable pub set_dpms : Bool → List (Effect D)
  set_dpms enable = bus (dpms_set enable) ∷ []
