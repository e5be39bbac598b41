-- ===== src/Examples/Idle.antt =====
-- The modules with an idle client at concrete inputs.
use clight.Prelude.{◌≡◌, refl, inl, inr, true, false, some, List, [], ◌∷◌, arith, minus_one, ℤ, pos}
use clight.Public.{
  on_battery, TimeoutUpd, Message, upower_upd, dimmer_to_req, dpms_to_req, suspend_upd,
}
use clight.Commons.{
  State, other_module, client_timeout, client_start, bus, Input, user, IsSynced, handler_list,
}
use clight.Utils.Pause.{mod_check_pause, suspend}
use clight.Utils.Pause.Bits.{has}
use clight.Modules.IdleClient.{timeout_callback, IdleModule}
use clight.Modules.IdleClient.Synced.{PowerKnown, EndsSynced, handle_all}
use clight.Modules.IdleClient.Reasons.{timeout_callback-starts_asleep, IsAsleep}
use clight.Examples.Data.{state}
use clight.Modules.Dimmer
use clight.Modules.Dimmer.Synced
use clight.Modules.Dpms
use clight.Modules.Dpms.Synced as DpmsSynced

abbrev idle_module : IdleModule
idle_module = record {
  client = true;
  paused_state = 0;
  timeouts = record { first = pos 45; second = pos 20 };
}

abbrev to_suspend : Input ℤ
to_suspend = user other_module (suspend_upd (record { old = false; new = true; force = false }))

-- A suspension, the loss of the power supply, a timeout of 0, and the resumption.
abbrev inputs : (TimeoutUpd → Message ℤ) → List (Input ℤ × State ℤ)
inputs request =
    let timeout : TimeoutUpd = record { new = pos 0; state = minus_one; daytime = minus_one } in
    (to_suspend, record state { suspended = true })
    ∷ (
      user other_module (upower_upd (record { old = pos 0; new = pos 1 })),
      record state { suspended = true; ac_state = on_battery },
    )
    ∷ (user other_module (request timeout), record state { suspended = true })
    ∷ (to_suspend, state)
    ∷ []

known : (request : TimeoutUpd → Message ℤ) → PowerKnown (inputs request)
known request = (inl refl, (inr refl, (inl refl, (inl refl, tt))))

running : IsSynced handler_list [] 0 []
running = (omega arith, refl)

dimmer-synced_example : EndsSynced handler_list [] (
    handle_all handler_list Dimmer.receive Dimmer.receive_paused
      (inputs dimmer_to_req)
      idle_module
      [])
dimmer-synced_example =
    Synced.dimmer-synced handler_list [] (inputs dimmer_to_req) idle_module [] (known dimmer_to_req)
      running

dpms-synced_example :
    EndsSynced handler_list []
      (handle_all handler_list Dpms.receive Dpms.receive_paused (inputs dpms_to_req) idle_module [])
dpms-synced_example =
    DpmsSynced.dpms-synced handler_list [] (inputs dpms_to_req) idle_module [] (known dpms_to_req)
      running

abbrev sleeping_module : IdleModule
sleeping_module = record idle_module { paused_state = 16 }

sleeping-IsAsleep : IsAsleep state sleeping_module
unfolding has
sleeping-IsAsleep = record {
  has_client = refl;
  in_range = omega arith;
  asleep = refl;
  uninhibited = refl;
}

timeout_callback-starts_asleep_example :
    (timeout_callback state sleeping_module
      ≡ some (sleeping_module, bus (client_timeout (pos 45)) ∷ bus client_start ∷ []))
    × (has 16 suspend ≡ true)
unfolding mod_check_pause
timeout_callback-starts_asleep_example =
    timeout_callback-starts_asleep state sleeping_module (pos 45) sleeping-IsAsleep refl
      (omega arith)
