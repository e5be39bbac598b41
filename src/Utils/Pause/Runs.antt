-- ===== src/Utils/Pause/Runs.antt =====
-- Sequences of pause requests, and the handler that they leave on top.
use clight.Prelude.{
  ℕ, ◌<◌, ◌≡◌, refl, sym, ap, ◌∙◌, ◌↔◌, Bool, true, false, not, List, [], ◌∷◌, arith, ◌==◌,
  if◌then◌else◌,
}
use clight.Commons.{paused, IsSynced, Libmodule}
use clight.Utils.Pause.{mask, mod_check_pause, ModPause}
use clight.Utils.Pause.Bits.{
  has, has-mod_check_pause, mod_check_pause-lt, eq_zero_iff, mod_check_pause-wakes,
  mod_check_pause-pauses, mod_check_pause-idle,
}

-- `mod_check_pause`, request after request.
pub pause_run : ℕ → List (Bool × ModPause) → ℕ
pause_run p [] = p
pause_run p ((pause, reason) ∷ es) = pause_run (mod_check_pause pause p reason).0 es

-- What the last request for a reason asked, and `b` if there was none.
abbrev pub last_request : Bool → ModPause → List (Bool × ModPause) → Bool
last_request b r [] = b
last_request b r ((pause, reason) ∷ es) =
    last_request (if mask reason == mask r then pause else b) r es

-- From a state with no other bits than the nine reasons', after any requests, the module is paused
-- for a reason exactly when the last request for it asked so, or, with no such request, when it was.
pub has-pause_run :
    (p : ℕ) (es : List (Bool × ModPause)) (r : ModPause)
    → p < 512
    → has (pause_run p es) r ≡ last_request (has p r) r es
unfolding pause_run
has-pause_run p [] r h = refl
has-pause_run p ((pause, reason) ∷ es) r h =
    has-pause_run (mod_check_pause pause p reason).0 es r (mod_check_pause-lt pause p reason h)
    ∙ ap (λ b. last_request b r es) (has-mod_check_pause pause p reason r h)

pub pause_run-lt : (p : ℕ) (es : List (Bool × ModPause)) → p < 512 → pause_run p es < 512
unfolding pause_run
pause_run-lt p [] h = h
pause_run-lt p ((pause, reason) ∷ es) h =
    pause_run-lt (mod_check_pause pause p reason).0 es (mod_check_pause-lt pause p reason h)

-- A module that starts unpaused runs after some requests exactly when for each reason the last
-- request, if there is one, asked to resume.
pub running_iff :
    (es : List (Bool × ModPause))
    → (pause_run 0 es ≡ 0) ↔ ((r : ModPause) → last_request false r es ≡ false)
running_iff es =
    let iff = eq_zero_iff (pause_run 0 es) (pause_run-lt 0 es (omega arith)) in
    let started : (r : ModPause) → has 0 r ≡ false = (eq_zero_iff 0 (omega arith)).0 refl in
    let last : (r : ModPause) → has (pause_run 0 es) r ≡ last_request false r es =
      λ r. has-pause_run 0 es r (omega arith) ∙ ap (λ b. last_request b r es) (started r) in
    (λ e r. sym (last r) ∙ iff.0 e r, λ f. iff.1 (λ r. last r ∙ f r))

-- A handler that pushes `receive_paused` when a request pauses the module, and pops it when one
-- resumes it, keeps the stack in step with the bits.
pub IsSynced-step :
    {S : Type 0} (lib : Libmodule S) (base : S) (pause : Bool) (p : ℕ) (r : ModPause) (s : S)
    → IsSynced lib base p s
    → let (p', woken) = mod_check_pause pause p r in
      IsSynced lib base p'
        (if woken then (if pause then lib.m_become paused s else lib.m_unbecome s) else s)
IsSynced-step lib base true p r s h =
    ground (
      arith,
      mod_check_pause-lt true p r,
      mod_check_pause-wakes true p r,
      mod_check_pause-pauses p r,
    )
IsSynced-step lib base false p r s h = ground (
  arith,
  mod_check_pause-lt false p r,
  mod_check_pause-wakes false p r,
  mod_check_pause-idle r,
  lib.unbecome-become paused base,
)

-- A timer that is registered while nothing pauses the module, and that each change of that registers again or
-- takes away, stays so.
pub registered-step :
    (pause : Bool) (p : ℕ) (r : ModPause) (b : Bool)
    → p < 512
    → b ≡ (p == 0)
    → let (p', woken) = mod_check_pause pause p r in (if woken then not pause else b) ≡ (p' == 0)
registered-step true p r b h e =
    ground (arith, mod_check_pause-wakes true p r, mod_check_pause-pauses p r)
registered-step false p r b h e =
    ground (arith, mod_check_pause-wakes false p r, mod_check_pause-idle r)
