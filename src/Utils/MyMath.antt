-- ===== src/Utils/MyMath.antt =====
-- utils/my_math.c: clamping, the values of a curve, and the distance of two places. The functions of
-- the C library are the fields of `Libm`.
pub mod Bounds
pub mod Sun
use clight.Prelude.{◌-◌, Option, some, if◌then◌else◌, ◌>>=◌, length, get_elem?, sub_ℕ, ℤ, pos}
use clight.Public.{Loc}
use clight.Commons.{Float, Curve}

pub record Libm (D : Type 0) : Type 0 where
  pub pow : D → D → D
  pub sin : D → D
  pub cos : D → D
  pub acos : D → D
  pub pi : D

module _ {D : Type 0} ⦃f : Float D⦄ where
  abbrev pub of_int : ℤ → D
  of_int n = f.literal n 1

  unfoldable pub deg_to_rad : Libm D → D → D
  deg_to_rad m angle = f.div (f.mul m.pi angle) (of_int (pos 180))

  unfoldable pub rad_to_deg : Libm D → D → D
  rad_to_deg m angle = f.div (f.mul (of_int (pos 180)) angle) m.pi

  unfoldable pub clamp : D → D → D → D
  clamp value max min = if f.lt max value then max else if f.lt value min then min else value

  abbrev pub larger : D → D → D
  larger a b = if f.lt b a then a else b

  abbrev pub smaller : D → D → D
  smaller a b = if f.lt a b then a else b

  -- The first point and the last, which are out of bounds if there is none.
  abbrev pub ends : Curve D → Option (D × D)
  ends c = do
    first ← get_elem? c.points 0
    last ← get_elem? c.points (length c.points - 1)
    some (first, last)

  abbrev pub polynomial : Libm D → Curve D → D → D
  polynomial m c perc =
      let real_perc = f.mul perc (of_int (sub_ℕ (length c.points) 1)) in
      f.add (f.add c.fit_parameters.0 (f.mul c.fit_parameters.1 real_perc))
        (f.mul c.fit_parameters.2 (m.pow real_perc (of_int (pos 2))))

  unfoldable pub get_value_from_curve : Libm D → D → Curve D → Option D
  get_value_from_curve m perc c = do
    (first, last) ← ends c
    some (clamp (polynomial m c perc) (larger last first) (smaller first last))

  unfoldable pub get_distance : Libm D → Loc D → Loc D → D
  get_distance m loc1 loc2 =
      let theta = f.sub loc1.lon loc2.lon in
      let rad = deg_to_rad m in
      let cosine =
        f.add (f.mul (m.sin (rad loc1.lat)) (m.sin (rad loc2.lat)))
          (f.mul (f.mul (m.cos (rad loc1.lat)) (m.cos (rad loc2.lat))) (m.cos (rad theta))) in
      f.mul (rad_to_deg m (m.acos cosine)) (f.mul (of_int (pos 60)) (f.literal (pos 11515) 10000))
