-- ===== src/Modules/Gamma/Resumed.antt =====
-- What GAMMA does about the requests of DAYTIME that came while it was paused.
use clight.Prelude.{
  ◌≡◌, refl, ap, ◌∙◌, ◌⊎◌, inl, inr, Bool, true, false, ◌&&◌, ◌||◌, Option, none, some, List, [],
  ◌∷◌, arith, if◌then◌else◌, Option-cases, ◌>>=◌, minus_one, ℤ,
}
use clight.Public.{InPair, SuspendUpd, TempUpd, temp_req, next_dayevt_upd, suspend_upd}
use clight.Commons.{Float, Conf, State, ModuleName, Effect, unbecome, Input, user}
use clight.Utils.Pause.{mask, mod_check_pause, suspend}
use clight.Pubsub.Validations.{validate_temp}
use clight.Modules.Gamma.{GammaResult, on_new_next_dayevt, on_daytime_req, pause_mod, GammaModule}
use clight.Modules.Gamma.Handlers.{is_daytime, receive_paused}

module _ {D : Type 0} ⦃f : Float D⦄ (day_of : ℤ → ℤ × ℤ) (ok : Bool) (now : ℤ) (c : Conf D) where
  abbrev passes : Option (Bool × TempUpd) → Bool
  passes none = false
  passes (some (valid, up)) = valid

  -- A valid request of DAYTIME.
  abbrev pub wants_sync : Input D → State D → Bool
  wants_sync (user from (temp_req up)) s = passes (validate_temp c s up) && is_daytime from
  wants_sync _ s = false

  abbrev pub any_wants_sync : Bool → List (Input D × State D) → Bool
  any_wants_sync b [] = b
  any_wants_sync b ((i, s) ∷ is) = any_wants_sync (b || wants_sync i s) is

  -- No message about a suspension, and each request for a temperature is for a known time of day.
  abbrev pub IsQuiet : Input D → State D → Type 0
  IsQuiet (user from (suspend_upd up)) s = ⊥
  IsQuiet (user from (temp_req up)) s =
      InPair s.day_time × ((up.daytime ≡ minus_one) ⊎ InPair up.daytime)
  IsQuiet _ s = Unit

  abbrev pub AllQuiet : List (Input D × State D) → Type 0
  AllQuiet [] = Unit
  AllQuiet ((i, s) ∷ is) = IsQuiet i s × AllQuiet is

  -- The paused handler takes inputs, one after another.
  pub paused_run : List (Input D × State D) → GammaModule → Option GammaModule
  paused_run [] m = some m
  paused_run ((i, s) ∷ is) m =
      let rest = λ (r : GammaResult D). paused_run is r.0 in
      receive_paused day_of ok now i c s m >>= rest

  checked_temp :
      (up : TempUpd) (s : State D)
      → InPair s.day_time
      → (up.daytime ≡ minus_one) ⊎ InPair up.daytime
      → (r : Bool × TempUpd) × (validate_temp c s up ≡ some r)
  unfolding validate_temp
  checked_temp up s h k = elim (Option-cases (validate_temp c s up)) [
    | inl e ↦ absurd (ground arith)
    | inr (r, e) ↦ (r, e)
  ]

  step_quiet :
      (i : Input D) (s : State D) (m : GammaModule)
      → IsQuiet i s
      → (m' : GammaModule) × (receive_paused day_of ok now i c s m ≡ some (m', c, s, []))
        × (m'.paused_state ≡ m.paused_state)
        × (m'.should_sync_temp ≡ (m.should_sync_temp || wants_sync i s))
  unfolding receive_paused on_new_next_dayevt
  step_quiet (user from (temp_req up)) s m q =
      let ((valid, up'), e) = checked_temp up s q.0 q.1 in
      (
        if valid && is_daytime from then record m { should_sync_temp = true } else m,
        rw e,
        ground arith,
        rw e (ground arith),
      )
  step_quiet (user from (suspend_upd up)) s m q = absurd q
  step_quiet (user from (next_dayevt_upd up)) s m q =
      (on_new_next_dayevt m, refl, refl, ground arith)
  step_quiet _ s m q = (m, refl, refl, ground arith)

  run_quiet :
      (is : List (Input D × State D)) (m : GammaModule)
      → AllQuiet is
      → (m' : GammaModule) × (paused_run is m ≡ some m')
        × (m'.paused_state ≡ m.paused_state)
        × (m'.should_sync_temp ≡ any_wants_sync m.should_sync_temp is)
  unfolding paused_run
  run_quiet [] m q = (m, refl, refl, refl)
  run_quiet ((i, s) ∷ is) m (q, qs) =
      let (m1, e1, p1, w1) = step_quiet i s m q in
      let (m2, e2, p2, w2) = run_quiet is m1 qs in
      (m2, rw e1 e2, p2 ∙ p1, w2 ∙ ap (λ b. any_wants_sync b is) w1)

  -- What a resumption does: it synchronises once, or not at all.
  abbrev pub resumed : Bool → State D → GammaModule → Option (GammaModule × List (Effect D))
  resumed true s m =
      on_daytime_req day_of ok now c s (record m { paused_state = 0; should_sync_temp = false })
      >>= λ (m', es). some (m', unbecome ∷ es)
  resumed false s m = some (record m { paused_state = 0 }, unbecome ∷ [])

  -- With the configuration and the shared state as they are.
  abbrev pub beside : State D → Option (GammaModule × List (Effect D)) → Option (GammaResult D)
  beside s o = o >>= λ (m, es). some (m, c, s, es)

  pause_mod-resumed :
      (b : Bool) (s : State D) (m : GammaModule)
      → m.paused_state ≡ mask suspend
      → m.should_sync_temp ≡ b
      → pause_mod day_of ok now false suspend c s m ≡ resumed b s m
  unfolding pause_mod mod_check_pause
  pause_mod-resumed true s m p w = rw (p, w)
  pause_mod-resumed false s m p w = rw (p, w)

  -- A module that is paused by a suspension only, with nothing to synchronise, gets inputs that are not
  -- about suspensions and ask for no unknown time of day, and then the end of the suspension. The paused
  -- handler takes them all, and then the module resumes; it handles a request of DAYTIME, at that
  -- time, if a valid one came, and none otherwise.
  pub resume-syncs :
      (is : List (Input D × State D)) (m : GammaModule) (up : SuspendUpd) (from : ModuleName)
      (s : State D)
      → AllQuiet is
      → m.paused_state ≡ mask suspend
      → m.should_sync_temp ≡ false
      → s.suspended ≡ false
      → (m' : GammaModule) × (paused_run is m ≡ some m')
        × (receive_paused day_of ok now (user from (suspend_upd up)) c s m'
            ≡ beside s (resumed (any_wants_sync false is) s m'))
  unfolding receive_paused
  resume-syncs is m up from s q h k e =
      let (m', run, p, w) = run_quiet is m q in
      let asleep : m'.paused_state ≡ 16 = p ∙ h in
      let wants : m'.should_sync_temp ≡ any_wants_sync false is =
        w ∙ ap (λ b. any_wants_sync b is) k in
      (
        m',
        run,
        ap (λ b. beside s (pause_mod day_of ok now b suspend c s m')) e
            ∙ ap (beside s) (pause_mod-resumed (any_wants_sync false is) s m' asleep wants),
      )
