-- ===== src/Examples/Curves.antt =====
-- The values of a curve at concrete inputs.
use clight.Prelude.{◌≡◌, refl, true, some, arith, ℤ, pos}
use clight.Utils.MyMath.{larger, smaller, get_value_from_curve, Libm}
use clight.Utils.MyMath.Bounds.{get_value_from_curve-between, Comparison}
use clight.Examples.Data.{hundredths, line}
use clight.Examples.Data.{hundredths}

-- Only the square is used.
abbrev pub libm : Libm ℤ
libm = record {
  pow = λ a b. hundredths.mul a a;
  sin = λ a. a;
  cos = λ a. a;
  acos = λ a. a;
  pi = pos 314;
}

hundredths-Comparison : Comparison (λ (a : ℤ). Unit)
hundredths-Comparison = record {
  le_not_lt = λ a b p q. ground arith;
  lt_asym = λ a b h. ground arith;
}

get_value_from_curve-between_example :
    (v : ℤ) × (get_value_from_curve libm (pos 50) line ≡ some v)
    × (hundredths.le (smaller (pos 0) (pos 100)) v ≡ true)
    × (hundredths.le v (larger (pos 100) (pos 0)) ≡ true)
get_value_from_curve-between_example =
    get_value_from_curve-between (λ a. Unit) hundredths-Comparison libm (pos 50) line (pos 0)
      (pos 100) refl tt tt tt
