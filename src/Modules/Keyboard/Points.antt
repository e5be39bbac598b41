-- ===== src/Modules/Keyboard/Points.antt =====
-- The points of KEYBOARD's curves.
use clight.Prelude.{
  ℕ, zero, suc, ◌-◌, ◌≤◌, ◌<◌, ◌≡◌, refl, ap, subst, ◌⊎◌, inl, inr, Bool, true, false, ◌&&◌, Option,
  none, some, List, [], ◌∷◌, arith, if◌then◌else◌, Bool-cases, Option-cases, length, get_elem?,
  take, pos_part, minus_one, ◌≤ℤ◌, ◌<ℤ◌, ltb_ℤ, leb_ℤ, ◌==ℤ◌, ℤ, pos,
}
use clight.Public.{on_ac, size_ac, at, InPair, in_pair→InPair, CurveUpd}
use clight.Commons.{max_size_points, copy_points, Float, Curve, State}
use clight.Utils.MyMath.{clamp, larger, smaller, ends, polynomial, get_value_from_curve, Libm}
use clight.Pubsub.Validations.{out_of_unit, points_in_unit, validate_curve}
use clight.Modules.Keyboard.{on_curve_req, KbdModule}

pub get_elem?_total :
    {A : Type 0} (xs : List A) (i : ℕ) → i < length xs → (x : A) × (get_elem? xs i ≡ some x)
get_elem?_total [] i h = absurd (omega arith)
get_elem?_total (x ∷ xs) zero h = (x, refl)
get_elem?_total (x ∷ xs) (suc i) h = get_elem?_total xs i (omega arith)

length-take : {A : Type 0} (n : ℕ) (xs : List A) → n ≤ length xs → length (take n xs) ≡ n
length-take zero xs h = refl
length-take (suc n) [] h = absurd (omega arith)
length-take (suc n) (x ∷ xs) h = ap suc (length-take n xs (omega arith))

pos_part_le : (n : ℤ) (k : ℕ) → n ≤ℤ pos k → pos_part n ≤ k
pos_part_le n k h = ground arith

pos_part_pos : (n : ℤ) → pos 0 <ℤ n → 0 < pos_part n
pos_part_pos n h = omega arith

-- A request with points has as many as it says, at least.
abbrev pub SizedBy : {D : Type 0} → ℤ → Option (List D) → Type 0
SizedBy n none = Unit
SizedBy n (some ps) = n ≤ℤ pos (length ps)

abbrev pub IsSized : {D : Type 0} → CurveUpd D → Type 0
IsSized up = SizedBy up.num_points up.regression_points

-- Fitting a curve leaves its points.
abbrev pub IsFit : {D : Type 0} → (Curve D → Curve D) → Type 0
IsFit fit = (c : Curve _) → length (fit c).points ≡ length c.points

abbrev pub HasPoints : {D : Type 0} → KbdModule D → Type 0
HasPoints m = (0 < length m.curves.first.points) × (0 < length m.curves.second.points)

module _ {D : Type 0} ⦃f : Float D⦄ where
  pub ends_total : (c : Curve D) → 0 < length c.points → (e : D × D) × (ends c ≡ some e)
  ends_total c h =
      let (a, e) = get_elem?_total c.points 0 h in
      let (b, e') = get_elem?_total c.points (length c.points - 1) (omega arith) in
      ((a, b), rw (e, e'))

  pub get_value_from_curve_total :
      (libm : Libm D) (perc : D) (c : Curve D)
      → 0 < length c.points
      → (v : D) × (get_value_from_curve libm perc c ≡ some v)
  unfolding get_value_from_curve
  get_value_from_curve_total libm perc c h =
      let (a, e) = get_elem?_total c.points 0 h in
      let (b, e') = get_elem?_total c.points (length c.points - 1) (omega arith) in
      (clamp (polynomial libm c perc) (larger b a) (smaller a b), rw (e, e'))

  pub curve_at :
      (m : KbdModule D) (i : ℤ)
      → InPair i
      → HasPoints m
      → (c : Curve D) × (at m.curves i ≡ some c) × (0 < length c.points)
  curve_at m i (inl e) k = (m.curves.first, rw e, k.0)
  curve_at m i (inr e) k = (m.curves.second, rw e, k.1)

  points_in_unit_total :
      (n : ℕ) (ps : List D) → n ≤ length ps → (b : Bool) × (points_in_unit n ps ≡ some b)
  unfolding points_in_unit
  points_in_unit_total zero ps h = (true, refl)
  points_in_unit_total (suc n) [] h = absurd (omega arith)
  points_in_unit_total (suc n) (p ∷ ps) h =
      let (b, e) = points_in_unit_total n ps (omega arith) in
      elim (Bool-cases (out_of_unit p)) [ inl y ↦ (false, rw y) | inr y ↦ (b, rw (y, e)) ]

  -- The result of `on_curve_req`.
  abbrev pub Stored : (Curve D → Curve D) → CurveUpd D → KbdModule D → Type 0
  Stored fit up m =
      (m' : KbdModule D) × (on_curve_req fit up m ≡ some m')
      × (m'.paused_state ≡ m.paused_state)
      × HasPoints m'

  abbrev fitted : (Curve D → Curve D) → ℤ → List D → Curve D → Curve D
  fitted fit n ps c = fit (record c { points = take (pos_part n) ps })

  length-fitted :
      (fit : Curve D → Curve D) (n : ℤ) (ps : List D) (c : Curve D)
      → IsFit fit
      → pos 0 <ℤ n
      → n ≤ℤ pos (length ps)
      → 0 < length (fitted fit n ps c).points
  length-fitted fit n ps c q h z = omega (
    arith,
    q (record c { points = take (pos_part n) ps }),
    length-take (pos_part n) ps (pos_part_le n (length ps) z),
  )

  copy_points-take :
      (n : ℤ) (ps : List D)
      → pos 0 <ℤ n
      → n ≤ℤ max_size_points
      → n ≤ℤ pos (length ps)
      → copy_points n ps ≡ some (take (pos_part n) ps)
  unfolding copy_points
  copy_points-take n ps h room z = ground arith

  curve-Stored :
      (fit : Curve D → Curve D) (up : CurveUpd D) (ps : List D) (m : KbdModule D)
      → IsFit fit
      → up.regression_points ≡ some ps
      → pos 0 <ℤ up.num_points
      → up.num_points ≤ℤ max_size_points
      → up.num_points ≤ℤ pos (length ps)
      → InPair up.state
      → HasPoints m
      → Stored fit up m
  unfolding on_curve_req
  curve-Stored fit up ps m q e h room z (inl a) k =
      let c = fitted fit up.num_points ps m.curves.first in
      (
        record m { curves = record m.curves { first = c } },
        rw (a, e, copy_points-take up.num_points ps h room z),
        refl,
        (length-fitted fit up.num_points ps m.curves.first q h z, k.1),
      )
  curve-Stored fit up ps m q e h room z (inr a) k =
      let c = fitted fit up.num_points ps m.curves.second in
      (
        record m { curves = record m.curves { second = c } },
        rw (a, e, copy_points-take up.num_points ps h room z),
        refl,
        (k.0, length-fitted fit up.num_points ps m.curves.second q h z),
      )

  abbrev with_state : State D → CurveUpd D → CurveUpd D
  with_state s up = record up { state = if up.state ==ℤ minus_one then s.ac_state else up.state }

  -- The check passes only for a state of the power supply and a number of points from 1 to 50.
  sized : State D → CurveUpd D → Bool
  sized s up =
      let state = (with_state s up).state in
      leb_ℤ on_ac state
      && (ltb_ℤ state size_ac
          && (ltb_ℤ (pos 0) up.num_points && leb_ℤ up.num_points max_size_points))

  sized-InPair :
      (s : State D) (up : CurveUpd D)
      → sized s up ≡ true
      → InPair (with_state s up).state
        × (pos 0 <ℤ up.num_points)
        × (up.num_points ≤ℤ max_size_points)
  unfolding sized
  sized-InPair s up h =
      (in_pair→InPair (with_state s up).state (ground arith), ground arith, ground arith)

  pub checked_curve :
      (fit : Curve D → Curve D) (up : CurveUpd D) (s : State D) (m : KbdModule D)
      → IsFit fit
      → IsSized up
      → HasPoints m
      → ((up' : CurveUpd D) × (validate_curve s up ≡ some (false, up')))
        ⊎ ((up' : CurveUpd D) × (validate_curve s up ≡ some (true, up')) × Stored fit up' m)
  unfolding validate_curve sized
  checked_curve fit up s m q z k = elim (Option-cases up.regression_points) [
    | inl e ↦ inl (with_state s up, rw e)
    | inr (ps, e) ↦ elim (Bool-cases (sized s up)) [
      | inr n ↦ inl (with_state s up, rw (e, n))
      | inl y ↦
          let (pair, positive, room) = sized-InPair s up y in
          let fits : up.num_points ≤ℤ pos (length ps) = subst (SizedBy up.num_points) e z in
          let (b, e') =
            points_in_unit_total (pos_part up.num_points) ps
              (pos_part_le up.num_points (length ps) fits) in
          elim (Bool-cases b) [
            | inl t ↦ inr (
              with_state s up,
              rw (e, y, e', t),
              curve-Stored fit (with_state s up) ps m q e positive room fits pair k,
            )
            | inr n ↦ inl (with_state s up, rw (e, y, e', n))
          ]
    ]
  ]
