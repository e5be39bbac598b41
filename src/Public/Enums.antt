-- ===== src/Public/Enums.antt =====
-- public.h: the enumerations.
use clight.Prelude.{
  ℕ, ◌≡◌, ◌⊎◌, inl, inr, Bool, true, ◌&&◌, Option, none, some, arith, if◌then◌else◌, ltb_ℤ, leb_ℤ,
  ◌==ℤ◌, ℤ, pos,
}

abbrev pub day : ℤ
day = pos 0

abbrev pub night : ℤ
night = pos 1

abbrev pub size_states : ℤ
size_states = pos 2

abbrev pub sunrise : ℤ
sunrise = pos 0

abbrev pub sunset : ℤ
sunset = pos 1

abbrev pub on_ac : ℤ
on_ac = pos 0

abbrev pub on_battery : ℤ
on_battery = pos 1

abbrev pub size_ac : ℤ
size_ac = pos 2

-- Two bits, so that a display can be dimmed and off at once.
abbrev pub display_on : ℕ
display_on = 0

abbrev pub display_dimmed : ℕ
display_dimmed = 1

abbrev pub display_off : ℕ
display_off = 2

abbrev pub display_size : ℕ
display_size = 3

abbrev pub lid_open : ℤ
lid_open = pos 0

abbrev pub lid_closed : ℤ
lid_closed = pos 1

abbrev pub lid_docked : ℤ
lid_docked = pos 2

-- Dimming transitions.
pub data DimTrans : Type 0 where
  enter : DimTrans
  exit : DimTrans

-- An array of two elements, indexed by an enumeration. A read or a write out of bounds is a fault.
pub record Pair (A : Type 0) : Type 0 where
  pub first : A
  pub second : A

module _ {A : Type 0} where
  abbrev pub at : Pair A → ℤ → Option A
  at p i = if i ==ℤ pos 0 then some p.first else if i ==ℤ pos 1 then some p.second else none

  abbrev pub put : Pair A → ℤ → A → Option (Pair A)
  put p i a =
      if i ==ℤ pos 0
      then some (record p { first = a })
      else if i ==ℤ pos 1
      then some (record p { second = a })
      else none

-- `i >= 0 && i < 2`: an index of such an array.
abbrev pub in_pair : ℤ → Bool
in_pair i = leb_ℤ (pos 0) i && ltb_ℤ i (pos 2)

abbrev pub InPair : ℤ → Type 0
InPair i = (i ≡ pos 0) ⊎ (i ≡ pos 1)

pub in_pair→InPair : (i : ℤ) → in_pair i ≡ true → InPair i
in_pair→InPair i h = ground arith

pub at_total : {A : Type 0} (p : Pair A) (i : ℤ) → InPair i → (a : A) × (at p i ≡ some a)
at_total p i (inl e) = (p.first, rw e)
at_total p i (inr e) = (p.second, rw e)

pub put_total :
    {A : Type 0} (p : Pair A) (i : ℤ) (a : A) → InPair i → (q : Pair A) × (put p i a ≡ some q)
put_total p i a (inl e) = (record p { first = a }, rw e)
put_total p i a (inr e) = (record p { second = a }, rw e)
