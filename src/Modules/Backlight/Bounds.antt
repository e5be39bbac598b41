-- ===== src/Modules/Backlight/Bounds.antt =====
-- The level that BACKLIGHT asks for stays between the ends of the curve, whatever the screen shows.
use clight.Prelude.{◌≡◌, inl, inr, true, some, Bool-cases, pos}
use clight.Public.{at}
use clight.Commons.{Float, Curve, Conf, State}
use clight.Utils.MyMath.{
  of_int, clamp, larger, smaller, ends, polynomial, get_value_from_curve, Libm,
}
use clight.Utils.MyMath.Bounds.{
  smaller-larger, clamp_between, smaller_number, larger_number, get_value_from_curve-between,
  Comparison,
}
use clight.Modules.Backlight.Levels.{new_backlight}

module _ {D : Type 0} ⦃f : Float D⦄ (IsNumber : D → Type 0)
    (laws : Comparison ⦃f = f⦄ IsNumber) where
  -- The level that the screen's contents lower.
  abbrev pub lowered : Conf D → State D → D → D
  lowered c s level =
      f.sub (f.add level c.screen_conf.contrib)
        (f.mul (f.mul (of_int (pos 2)) c.screen_conf.contrib) s.screen_br)

  value_number :
      (libm : Libm D) (perc : D) (curve : Curve D) (a b : D)
      → ends curve ≡ some (a, b)
      → IsNumber a
      → IsNumber b
      → IsNumber (polynomial libm curve perc)
      → (v : D) × (get_value_from_curve libm perc curve ≡ some v) × IsNumber v
  unfolding get_value_from_curve clamp
  value_number libm perc curve a b e p q r =
      let x = polynomial libm curve perc in
      let max = larger b a in
      let min = smaller a b in
      (
        clamp x max min,
        rw e,
        elim (Bool-cases (f.lt max x)) [
          | inl y ↦ rw (clamp, y) (larger_number IsNumber laws a b p q)
          | inr n ↦ elim (Bool-cases (f.lt x min)) [
            | inl y ↦ rw (clamp, n, y) (smaller_number IsNumber laws a b p q)
            | inr n' ↦ rw (clamp, n, n') r
          ]
        ],
      )

  -- For a curve of the current power supply whose first and last point are numbers, a fit that is one at the
  -- ambient brightness, and a number that stays one when the screen's contents lower it: the level that
  -- BACKLIGHT asks for is there, and is between the two points, in whichever order they are.
  pub new_backlight-between :
      (libm : Libm D) (c : Conf D) (s : State D) (curve : Curve D) (a b : D)
      → at c.sens_conf.default_curve s.ac_state ≡ some curve
      → ends curve ≡ some (a, b)
      → IsNumber a
      → IsNumber b
      → IsNumber (polynomial libm curve s.ambient_br)
      → ((v : D) → IsNumber v → IsNumber (lowered c s v))
      → (new : D) × (new_backlight libm c s ≡ some new)
        × (f.le (smaller a b) new ≡ true)
        × (f.le new (larger b a) ≡ true)
  unfolding new_backlight
  new_backlight-between libm c s curve a b e e' p q r closed =
      let (v, same, number) = value_number libm s.ambient_br curve a b e' p q r in
      let (v', same', above, below) =
        get_value_from_curve-between IsNumber laws libm s.ambient_br curve a b e' p q r in
      let (over, under) =
        clamp_between IsNumber laws (lowered c s v) (larger b a) (smaller a b) (closed v number)
          (larger_number IsNumber laws a b p q) (smaller_number IsNumber laws a b p q)
          (smaller-larger IsNumber laws a b p q) in
      elim (Bool-cases (f.eq s.screen_br (of_int (pos 0)))) [
        | inl y ↦ (v', rw (e, same', e', y), above, below)
        | inr n ↦ (_, rw (e, same, e', n), over, under)
      ]
