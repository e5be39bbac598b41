-- ===== src/Utils/MyMath/Bounds.antt =====
-- The values of a curve stay between those of its end points.
use clight.Prelude.{◌≡◌, inl, inr, true, false, not, some, arith, Bool-cases}
use clight.Commons.{Float, Curve}
use clight.Utils.MyMath.{clamp, larger, smaller, ends, polynomial, get_value_from_curve, Libm}

-- What a comparison of doubles is on those that are numbers.
pub record Comparison {D : Type 0} ⦃f : Float D⦄ (IsNumber : D → Type 0) : Type 0 where
  pub le_not_lt : (a b : D) → IsNumber a → IsNumber b → f.le a b ≡ not (f.lt b a)
  pub lt_asym : (a b : D) → f.lt a b ≡ true → f.lt b a ≡ false

module _ {D : Type 0} ⦃f : Float D⦄ (IsNumber : D → Type 0)
    (laws : Comparison ⦃f = f⦄ IsNumber) where
  open laws use {le_not_lt, lt_asym}

  le_refl : (a : D) → IsNumber a → f.le a a ≡ true
  le_refl a p = ground (arith, le_not_lt a a p p, lt_asym a a)

  pub smaller-larger : (a b : D) → IsNumber a → IsNumber b → f.le (smaller a b) (larger b a) ≡ true
  smaller-larger a b p q =
      ground (arith, le_not_lt a b p q, le_not_lt b a q p, lt_asym a b, lt_asym b a)

  pub clamp_between :
      (v max min : D)
      → IsNumber v
      → IsNumber max
      → IsNumber min
      → f.le min max ≡ true
      → (f.le min (clamp v max min) ≡ true) × (f.le (clamp v max min) max ≡ true)
  unfolding clamp
  clamp_between v max min p q r h =
      ground (arith, le_not_lt min v r p, le_not_lt v max p q, le_refl max q, le_refl min r)

  pub smaller_number : (a b : D) → IsNumber a → IsNumber b → IsNumber (smaller a b)
  smaller_number a b p q = elim (Bool-cases (f.lt a b)) [ inl e ↦ rw e p | inr e ↦ rw e q ]

  pub larger_number : (a b : D) → IsNumber a → IsNumber b → IsNumber (larger b a)
  larger_number a b p q = elim (Bool-cases (f.lt a b)) [ inl e ↦ rw e q | inr e ↦ rw e p ]

  -- For a curve with a first and a last point that are numbers, and a fit that is one at the given
  -- point, the value is there and is between the two, in whichever order they are.
  pub get_value_from_curve-between :
      (m : Libm D) (perc : D) (c : Curve D) (a b : D)
      → ends c ≡ some (a, b)
      → IsNumber a
      → IsNumber b
      → IsNumber (polynomial m c perc)
      → (v : D) × (get_value_from_curve m perc c ≡ some v)
        × (f.le (smaller a b) v ≡ true)
        × (f.le v (larger b a) ≡ true)
  unfolding get_value_from_curve
  get_value_from_curve-between m perc c a b e p q r =
      let between =
        clamp_between (polynomial m c perc) (larger b a) (smaller a b) r (larger_number a b p q)
          (smaller_number a b p q) (smaller-larger a b p q) in
      (_, rw e, between.0, between.1)
