-- ===== src/Modules/Display/Flags.antt =====
-- `state.display_state` is two flags.
use clight.Prelude.{
  ℕ, zero, suc, ◌<◌, bit_and, ◌≡◌, refl, ◌⊎◌, inl, inr, Bool, true, false, not, ◌&&◌, arith, ◌==◌,
  if◌then◌else◌, leb_ℤ, ◌==ℤ◌, ℤ, pos,
}
use clight.Public.{display_dimmed, display_off, DisplayUpd}
use clight.Commons.{Float, Conf, State}
use clight.Modules.Display.{on_display_req}

unfoldable pub is_dimmed : ℕ → Bool
is_dimmed d = not (bit_and d display_dimmed == 0)

unfoldable pub is_off : ℕ → Bool
is_off d = not (bit_and d display_off == 0)

-- The flags that a value has, and the value that has given flags.
abbrev flags : Bool → Bool → ℕ
flags false false = 0
flags true false = 1
flags false true = 2
flags true true = 3

eq_flags : (d : ℕ) → d < 4 → d ≡ flags (is_dimmed d) (is_off d)
unfolding is_dimmed is_off
eq_flags zero h = refl
eq_flags (suc zero) h = refl
eq_flags (suc (suc zero)) h = refl
eq_flags (suc (suc (suc zero))) h = refl
eq_flags (suc (suc (suc (suc d)))) h = absurd (omega arith)

-- What each request makes of the flags.
abbrev requested : ℤ → Bool → Bool → Bool × Bool
requested new dimmed off =
    if new ==ℤ pos 1 then (true, off) else if new ==ℤ pos 2 then (dimmed, true) else (false, false)

pub display_cases : (d : ℕ) → d < 4 → (d ≡ 0) ⊎ (d ≡ 1) ⊎ (d ≡ 2) ⊎ (d ≡ 3)
display_cases d h = omega arith

module _ {D : Type 0} ⦃f : Float D⦄ (c : Conf D) (up : DisplayUpd) (old_pct : D) (s : State D) where
  -- The state after the request.
  abbrev next : ℕ
  next = (on_display_req c up old_pct s).1.display_state

  -- The request is taken when it asks for something new: for any change, unless the display is off,
  -- when only `DISPLAY_ON` is.
  abbrev taken : Bool
  taken =
      if is_off s.display_state
      then up.new ==ℤ pos 0
      else leb_ℤ (pos 0) up.new && (leb_ℤ up.new (pos 2) && not (up.new ==ℤ pos s.display_state))

  abbrev Outcome : Type 0
  Outcome =
      (next < 4)
      × ((is_dimmed next, is_off next) ≡ (
          if taken
          then requested up.new (is_dimmed s.display_state) (is_off s.display_state)
          else (is_dimmed s.display_state, is_off s.display_state)))
      × (next == s.display_state) ≡ not taken

  -- From one of the four states: a request changes the flags as asked if it is taken, and then it does
  -- change the state; it changes no flag otherwise. The new state is one of the four.
  pub on_display_req-flags : s.display_state < 4 → Outcome
  unfolding on_display_req is_dimmed is_off
  on_display_req-flags h = elim (display_cases s.display_state h) [
    | inl e ↦ ground arith
    | inr (inl e) ↦ ground arith
    | inr (inr (inl e)) ↦ ground arith
    | inr (inr (inr e)) ↦ ground arith
  ]
