-- ===== src/Modules/Keyboard/Deaf.antt =====
-- A timeout that is not positive pauses KEYBOARD, and its paused handler does not listen to timeouts.
use clight.Prelude.{
  ◌≡◌, refl, inl, inr, Bool, Option, none, some, List, [], ◌∷◌, ◌++◌, arith, ◌>>=◌, ◌≤ℤ◌, ℤ, pos,
}
use clight.Public.{at, InPair, TimeoutUpd, kbd_to_req}
use clight.Commons.{Float, Curve, Conf, State, other_module, Effect, user}
use clight.Utils.Pause.{mask, mod_check_pause, timeout}
use clight.Utils.MyMath.{Libm}
use clight.Pubsub.Validations.{validate_timeout}
use clight.Modules.Keyboard.{
  KbdResult, pause_kbd, set_keyboard_timeout, receive, receive_paused, KbdModule,
}

module _ {D : Type 0} ⦃f : Float D⦄ (fit : Curve D → Curve D) (ok : Bool) where
  -- Requests for a timeout, one after another, while the module is paused.
  pub deaf_run : List (TimeoutUpd × State D) → KbdModule D → Option (KbdModule D × List (Effect D))
  deaf_run [] m = some (m, [])
  deaf_run ((up, s) ∷ ups) m =
      let rest = λ (r : KbdResult D). (deaf_run ups r.0 >>= λ (m', es). some (m', r.2 ++ es)) in
      receive_paused fit ok (user other_module (kbd_to_req up)) s m >>= rest

  deaf_run-same :
      (ups : List (TimeoutUpd × State D)) (m : KbdModule D) → deaf_run ups m ≡ some (m, [])
  unfolding deaf_run receive_paused
  deaf_run-same [] m = refl
  deaf_run-same ((up, s) ∷ ups) m = rw (deaf_run-same ups m)

module _ {D : Type 0} ⦃f : Float D⦄ (c : Conf D) (libm : Libm D) (fit : Curve D → Curve D)
    (ok : Bool) where
  -- The module has just been paused, and the timeout is stored.
  abbrev IsPaused : ℤ → ℤ → Option (KbdResult D) → Type 0
  IsPaused t ac_state none = ⊥
  IsPaused t ac_state (some (m, s, es)) =
      (m.paused_state ≡ mask timeout) × (at m.timeouts ac_state ≡ some t)

  -- And it stays as it is, whatever timeouts are asked for.
  abbrev pub StaysPaused : List (TimeoutUpd × State D) → ℤ → ℤ → Option (KbdResult D) → Type 0
  StaysPaused ups t ac_state none = ⊥
  StaysPaused ups t ac_state (some (m, s, es)) =
      (m.paused_state ≡ mask timeout)
      × (at m.timeouts ac_state ≡ some t)
      × (deaf_run fit ok ups m ≡ some (m, []))

  to_req-IsPaused :
      (up : TimeoutUpd) (s : State D) (m : KbdModule D)
      → m.paused_state ≡ 0
      → InPair s.ac_state
      → up.state ≡ s.ac_state
      → up.new ≤ℤ pos 0
      → IsPaused up.new s.ac_state (receive c libm fit ok (user other_module (kbd_to_req up)) s m)
  unfolding receive set_keyboard_timeout pause_kbd mod_check_pause validate_timeout
  to_req-IsPaused up s m h (inl a) e z = ground arith
  to_req-IsPaused up s m h (inr a) e z = ground arith

  -- In a module that is not paused, a request for a timeout that is not positive, for the current state of
  -- the power supply, stores it and pauses the module. Then requests for any timeouts, for any state,
  -- are not even stored, and leave the module paused.
  pub kbd_to_req-StaysPaused :
      (up : TimeoutUpd) (s : State D) (m : KbdModule D) (ups : List (TimeoutUpd × State D))
      → m.paused_state ≡ 0
      → InPair s.ac_state
      → up.state ≡ s.ac_state
      → up.new ≤ℤ pos 0
      → StaysPaused ups up.new s.ac_state
          (receive c libm fit ok (user other_module (kbd_to_req up)) s m)
  kbd_to_req-StaysPaused up s m ups h a e z =
      go (receive c libm fit ok (user other_module (kbd_to_req up)) s m)
        (to_req-IsPaused up s m h a e z)
    where
      go :
          (o : Option (KbdResult D))
          → IsPaused up.new s.ac_state o
          → StaysPaused ups up.new s.ac_state o
      go none x = x
      go (some (m', s', es)) (p, q) = (p, q, deaf_run-same fit ok ups m')
