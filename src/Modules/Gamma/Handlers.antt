-- ===== src/Modules/Gamma/Handlers.antt =====
-- The messages of modules/gamma.c. `now` is the time.
use clight.Prelude.{
  Bool, true, false, not, ◌&&◌, Option, none, some, List, [], ◌∷◌, if◌then◌else◌, ◌>>=◌, ◌==ℤ◌, ℤ,
  pos,
}
use clight.Public.{
  TempUpd, daytime_upd, bl_upd, temp_req, next_dayevt_upd, suspend_upd, amb_gamma_req,
}
use clight.Commons.{
  Float, Conf, State, ModuleName, daytime_module, other_module, match_signal, Effect, unbecome,
  deregister, bus, Input, loop_stopped, user,
}
use clight.Utils.Pause.{suspend}
use clight.Pubsub.Validations.{validate_temp, validate_ambgamma}
use clight.Modules.Gamma.{
  GammaResult, on_new_next_dayevt, set_temp, ambient_callback, on_daytime_req, on_ambgamma_req,
  interface_callback, pause_mod, GammaModule, Transition,
}

abbrev pub is_daytime : ModuleName → Bool
is_daytime daytime_module = true
is_daytime other_module = false

module _ {D : Type 0} ⦃f : Float D⦄ where
  abbrev unchanged :
      Conf D → State D → Option (GammaModule × List (Effect D)) → Option (GammaResult D)
  unchanged c s o = o >>= λ (m, es). some (m, c, s, es)

  -- `stopped`: DAYTIME is stopped, as no place is known.
  unfoldable pub receive_waiting_daytime : Bool → Input D → List (Effect D)
  receive_waiting_daytime stopped (user from (daytime_upd up)) =
      if stopped then deregister ∷ [] else unbecome ∷ bus match_signal ∷ []
  receive_waiting_daytime stopped _ = []

  abbrev on_temp_req :
      (ℤ → ℤ × ℤ)
      → Bool
      → ℤ
      → ModuleName
      → TempUpd
      → Conf D
      → State D
      → GammaModule
      → Option (GammaResult D)
  on_temp_req day_of ok now from up c s m = do
    (valid, up') ← validate_temp c s up
    let by_time = unchanged c s (on_daytime_req day_of ok now c s m)
    let by_user = interface_callback ok up' c s m
    (if valid then (if is_daytime from then by_time else by_user) else some (m, c, s, []))

  unfoldable pub receive :
      (ℤ → ℤ × ℤ) → Bool → ℤ → Input D → Conf D → State D → GammaModule → Option (GammaResult D)
  receive day_of ok now (user from (bl_upd up)) c s m =
      unchanged c s (ambient_callback ok (not (up.smooth ==ℤ pos 0)) up.new c s m)
  receive day_of ok now (user from (temp_req up)) c s m = on_temp_req day_of ok now from up c s m
  receive day_of ok now (user from (amb_gamma_req up)) c s m =
      let taken = on_ambgamma_req ok up c s m in
      if validate_ambgamma c up then taken else some (m, c, s, [])
  receive day_of ok now (user from (next_dayevt_upd up)) c s m =
      some (on_new_next_dayevt m, c, s, [])
  receive day_of ok now (user from (suspend_upd up)) c s m =
      unchanged c s (pause_mod day_of ok now s.suspended suspend c s m)
  receive day_of ok now loop_stopped c s m =
      let restored : Transition = record {
        temp = m.initial_temp;
        smooth = pos 0;
        step = pos 0;
        timeout = pos 0;
      } in
      let restore = unchanged c s (set_temp ok restored none c s m) in
      if not (m.initial_temp ==ℤ pos 0) && c.gamma_conf.restore then restore else some (m, c, s, [])
  receive day_of ok now _ c s m = some (m, c, s, [])

  -- A request from DAYTIME, which is valid, is only remembered.
  unfoldable pub remember :
      ModuleName → TempUpd → Conf D → State D → GammaModule → Option GammaModule
  remember from up c s m = do
    (valid, up') ← validate_temp c s up
    some (if valid && is_daytime from then record m { should_sync_temp = true } else m)

  unfoldable pub receive_paused :
      (ℤ → ℤ × ℤ) → Bool → ℤ → Input D → Conf D → State D → GammaModule → Option (GammaResult D)
  unfolding remember
  receive_paused day_of ok now (user from (temp_req up)) c s m =
      remember from up c s m >>= λ m'. some (m', c, s, [])
  receive_paused day_of ok now (user from (next_dayevt_upd up)) c s m =
      some (on_new_next_dayevt m, c, s, [])
  receive_paused day_of ok now (user from (suspend_upd up)) c s m =
      unchanged c s (pause_mod day_of ok now s.suspended suspend c s m)
  receive_paused day_of ok now _ c s m = some (m, c, s, [])
