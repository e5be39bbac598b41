-- ===== src/Modules/Keyboard/Runs.antt =====
-- Runs of KEYBOARD's handlers.
use clight.Prelude.{inl, inr, Bool, Option, none, some, List, [], ◌∷◌, Option-cases, ◌>>=◌}
use clight.Public.{InPair}
use clight.Commons.{Float, Curve, Conf, State, Input, receivers, IsSynced, Libmodule}
use clight.Utils.MyMath.{Libm}
use clight.Modules.Keyboard.{KbdResult, receive, receive_paused, KbdModule}
use clight.Modules.Keyboard.Points.{IsFit, HasPoints}
use clight.Modules.Keyboard.Synced.{Kept, InputSized, receive-Kept, receive_paused-Kept}

module _ {D S : Type 0} ⦃f : Float D⦄ (lib : Libmodule S) (base : S) (c : Conf D) (libm : Libm D)
    (fit : Curve D → Curve D) where
  -- A message goes to the handler on top of the stack.
  pub handle : Bool → Input D → State D → KbdModule D → S → Option (KbdModule D × S)
  handle ok i s m st =
      let run : Option (KbdResult D) = elim (lib.top st) [
        | none ↦ receive c libm fit ok i s m
        | some top ↦ receive_paused fit ok i s m
      ] in
      run >>= λ (m', s', es). some (m', receivers lib es st)

  -- Messages one after another, each with the shared state of its time and whether the level can be
  -- set then.
  pub handle_all : List (Bool × Input D × State D) → KbdModule D → S → Option (KbdModule D × S)
  handle_all [] m st = some (m, st)
  handle_all ((ok, i, s) ∷ is) m st =
      let rest = λ (r : KbdModule D × S). handle_all is r.0 r.1 in handle ok i s m st >>= rest

  -- The state of the power supply is known, and the arrays are as long as the requests say.
  abbrev pub AllKnown : List (Bool × Input D × State D) → Type 0
  AllKnown [] = Unit
  AllKnown ((ok, i, s) ∷ is) = InPair s.ac_state × InputSized lib base c libm fit i × AllKnown is

  abbrev pub IsGood : Option (KbdModule D × S) → Type 0
  IsGood none = ⊥
  IsGood (some (m, st)) = IsSynced lib base m.paused_state st × HasPoints m

  handle-IsGood :
      (ok : Bool) (i : Input D) (s : State D) (m : KbdModule D) (st : S)
      → Kept lib base st (receive c libm fit ok i s m)
      → Kept lib base st (receive_paused fit ok i s m)
      → IsGood (handle ok i s m st)
  unfolding handle
  handle-IsGood ok i s m st h k = elim (Option-cases (lib.top st)) [
    | inl e ↦ rw e (bound (receive c libm fit ok i s m) h)
    | inr (t, e) ↦ rw e (bound (receive_paused fit ok i s m) k)
  ]
    where
      bound :
          (o : Option (KbdResult D))
          → Kept lib base st o
          → IsGood (o >>= λ (m', s', es). some (m', receivers lib es st))
      bound none x = x
      bound (some (m', s', es)) x = x

  -- From a stack of handlers that is in step with the reasons for a pause, and curves with points,
  -- whatever comes while the state of the power supply is known and the arrays are as long as the requests
  -- say: the handlers return without a read or a write out of bounds, and in the end `receive_paused` is
  -- on top of the stack, once, if a reason pauses the module, the stack is its base otherwise, and the
  -- curves have points. The fit is one that leaves the number of points.
  pub keyboard-IsGood :
      (is : List (Bool × Input D × State D)) (m : KbdModule D) (st : S)
      → IsFit fit
      → AllKnown is
      → IsSynced lib base m.paused_state st
      → HasPoints m
      → IsGood (handle_all is m st)
  unfolding handle_all
  keyboard-IsGood [] m st q known h k = (h, k)
  keyboard-IsGood ((ok, i, s) ∷ is) m st q (a, z, known) h k =
      go (handle ok i s m st)
        (handle-IsGood ok i s m st (receive-Kept lib base c libm fit ok i s m st q z a h k)
          (receive_paused-Kept lib base c libm fit ok i s m st q z a h k))
        (λ m' st' h' k'. keyboard-IsGood is m' st' q known h' k')
    where
      go :
          (o : Option (KbdModule D × S))
          → IsGood o
          → ((m : KbdModule D) (st : S)
              → IsSynced lib base m.paused_state st
              → HasPoints m
              → IsGood (handle_all is m st))
          → IsGood (o >>= λ (r : KbdModule D × S). handle_all is r.0 r.1)
      go none x rec = x
      go (some (m', st')) (h', k') rec = rec m' st' h' k'
