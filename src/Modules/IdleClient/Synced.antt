-- ===== src/Modules/IdleClient/Synced.antt =====
-- The handler on top of the stack agrees with the reasons for a pause, and no array is read or
-- written out of bounds.
use clight.Prelude.{
  ◌≡◌, inl, inr, Bool, true, false, Option, none, some, List, [], ◌∷◌, ◌++◌, arith, Bool-cases,
  Option-cases, ◌>>=◌, leb_ℤ, ◌==ℤ◌, ℤ, pos,
}
use clight.Public.{at, InPair, put_total, TimeoutUpd}
use clight.Commons.{State, Effect, Input, receivers, receivers-append, IsSynced, Libmodule}
use clight.Utils.Pause.{ModPause, timeout}
use clight.Utils.Pause.Runs.{IsSynced-step}
use clight.Utils.Idler.{idle_set_timeout}
use clight.Modules.IdleClient.{
  pause_dimmer, timeout_callback, on_to_req, on_simulate_req, IdleModule,
}
use clight.Pubsub.Validations.{validate_timeout}
use clight.Pubsub.Timeouts.{validate_timeout-InPair}

module _ {D : Type 0} {S : Type 0} (lib : Libmodule S) (base : S) (st : S) where
  -- The call returns, and then the stack is right.
  abbrev pub Kept : Option (IdleModule × List (Effect D)) → Type 0
  Kept none = ⊥
  Kept (some (m, es)) = IsSynced lib base m.paused_state (receivers lib es st)

  receivers-set :
      (client : Bool) (t : ℤ) (s : State D) (st' : S)
      → receivers lib (idle_set_timeout client t s) st' ≡ st'
  unfolding idle_set_timeout
  receivers-set client t s st' = ground arith

  pub pause_dimmer-Kept :
      (pause : Bool) (reason : ModPause) (s : State D) (m : IdleModule)
      → InPair s.ac_state
      → IsSynced lib base m.paused_state st
      → Kept (pause_dimmer pause reason s m)
  unfolding pause_dimmer
  pause_dimmer-Kept pause reason s m a h =
      ground (arith, IsSynced-step lib base pause m.paused_state reason st h)

  Kept-append :
      (o : Option (IdleModule × List (Effect D))) (t : ℤ) (s : State D)
      → Kept o
      → Kept (o >>= λ (m', es). some (m', es ++ idle_set_timeout m'.client t s))
  Kept-append none t s h = h
  Kept-append (some (m, es)) t s h =
      rw
        (
          receivers-append lib es (idle_set_timeout m.client t s) st,
          receivers-set m.client t s (receivers lib es st),
        )
        h

  pub timeout_callback-Kept :
      (s : State D) (m : IdleModule)
      → InPair s.ac_state
      → IsSynced lib base m.paused_state st
      → Kept (timeout_callback s m)
  unfolding timeout_callback
  timeout_callback-Kept s m a h = elim (Option-cases (at m.timeouts s.ac_state)) [
    | inl e ↦ ground arith
    | inr (t, e) ↦ rw e (elim (Bool-cases (leb_ℤ t (pos 0))) [
      | inl le ↦ rw le (pause_dimmer-Kept true timeout s m a h)
      | inr gt ↦ rw gt (
          Kept-append (pause_dimmer false timeout s m) t s
            (pause_dimmer-Kept false timeout s m a h))
    ])
  ]

  pub on_to_req-Kept :
      (up : TimeoutUpd) (s : State D) (m : IdleModule)
      → InPair s.ac_state
      → IsSynced lib base m.paused_state st
      → Kept (on_to_req up s m)
  unfolding on_to_req
  on_to_req-Kept up s m a h = elim (Bool-cases (validate_timeout s up).0) [
    | inl valid ↦
        let (ts, e) =
          put_total m.timeouts (validate_timeout s up).1.state (validate_timeout s up).1.new
            (validate_timeout-InPair s up valid) in
        rw (valid, e)
          (elim (Bool-cases ((validate_timeout s up).1.state ==ℤ s.ac_state)) [
            | inl same ↦ rw same (timeout_callback-Kept s (record m { timeouts = ts }) a h)
            | inr other ↦ rw other h
          ])
    | inr invalid ↦ rw invalid h
  ]

  pub on_simulate_req-Kept :
      (s : State D) (m : IdleModule)
      → InPair s.ac_state
      → IsSynced lib base m.paused_state st
      → Kept (on_simulate_req s m)
  unfolding on_simulate_req
  on_simulate_req-Kept s m a h = ground arith

-- A handler of messages, as libmodule calls it.
abbrev pub Handler : Type 0 → Type 0
Handler D = Input D → State D → IdleModule → Option (IdleModule × List (Effect D))

-- The state of the power supply is known at every input.
abbrev pub PowerKnown : {D : Type 0} → List (Input D × State D) → Type 0
PowerKnown [] = Unit
PowerKnown ((i, s) ∷ is) = InPair s.ac_state × PowerKnown is

-- It returns, with the stack in step.
abbrev pub EndsSynced : {S : Type 0} → Libmodule S → S → Option (IdleModule × S) → Type 0
EndsSynced lib base none = ⊥
EndsSynced lib base (some (m, st)) = IsSynced lib base m.paused_state st

module _ {D : Type 0} {S : Type 0} (lib : Libmodule S) (receive receive_paused : Handler D) where
  -- One input goes to the handler on top of the stack.
  pub handle : Input D → State D → IdleModule → S → Option (IdleModule × S)
  handle i s m st =
      let run : Option (IdleModule × List (Effect D)) = elim (lib.top st) [
        | none ↦ receive i s m
        | some top ↦ receive_paused i s m
      ] in
      run >>= λ (m', es). some (m', receivers lib es st)

  -- Inputs one after another, each with the shared state of its time.
  pub handle_all : List (Input D × State D) → IdleModule → S → Option (IdleModule × S)
  handle_all [] m st = some (m, st)
  handle_all ((i, s) ∷ is) m st =
      let rest = λ (r : IdleModule × S). handle_all is r.0 r.1 in handle i s m st >>= rest

  handle-EndsSynced :
      (base : S) (i : Input D) (s : State D) (m : IdleModule) (st : S)
      → Kept lib base st (receive i s m)
      → Kept lib base st (receive_paused i s m)
      → EndsSynced lib base (handle i s m st)
  unfolding handle
  handle-EndsSynced base i s m st h k = elim (Option-cases (lib.top st)) [
    | inl e ↦ rw e (bound (receive i s m) h)
    | inr (t, e) ↦ rw e (bound (receive_paused i s m) k)
  ]
    where
      bound :
          (o : Option (IdleModule × List (Effect D)))
          → Kept lib base st o
          → EndsSynced lib base (o >>= λ (m', es). some (m', receivers lib es st))
      bound none x = x
      bound (some (m', es)) x = x

  pub handle_all-EndsSynced :
      (base : S)
      → ((i : Input D) (s : State D) (m : IdleModule) (st : S)
          → InPair s.ac_state
          → IsSynced lib base m.paused_state st
          → Kept lib base st (receive i s m))
      → ((i : Input D) (s : State D) (m : IdleModule) (st : S)
          → InPair s.ac_state
          → IsSynced lib base m.paused_state st
          → Kept lib base st (receive_paused i s m))
      → (is : List (Input D × State D)) (m : IdleModule) (st : S) → PowerKnown is
      → IsSynced lib base m.paused_state st
      → EndsSynced lib base (handle_all is m st)
  unfolding handle_all
  handle_all-EndsSynced base keep keep_paused [] m st k h = h
  handle_all-EndsSynced base keep keep_paused ((i, s) ∷ is) m st (a, k) h =
      go (handle i s m st)
        (handle-EndsSynced base i s m st (keep i s m st a h) (keep_paused i s m st a h))
        (handle_all-EndsSynced base keep keep_paused is)
    where
      go :
          (o : Option (IdleModule × S))
          → EndsSynced lib base o
          → ((m : IdleModule) (st : S)
              → PowerKnown is
              → IsSynced lib base m.paused_state st
              → EndsSynced lib base (handle_all is m st))
          → EndsSynced lib base (o >>= λ (r : IdleModule × S). handle_all is r.0 r.1)
      go none x rec = x
      go (some (m', st')) x rec = rec m' st' k x
