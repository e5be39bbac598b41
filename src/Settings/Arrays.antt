-- ===== src/Settings/Arrays.antt =====
-- The arrays of a file that is written and read again.
use clight.Prelude.{
  ℕ, suc, ◌+◌, ◌≡◌, refl, ap, ◌∙◌, Bool, true, false, ◌&&◌, some, List, [], ◌∷◌, map, arith, ltb,
  leb, length, ℤ, pos,
}
use clight.Public.{Pair}
use clight.Commons.{Float, Curve, DayTimeouts}
use clight.Settings.{
  Group, member, Libconfig, Scalar, bool_value, int_value, float_value, array, value, group,
}
use clight.Settings.Load.{load_pair, load_timeouts, float_elems, points_of, load_points, load_curve}
use clight.Settings.Read.{load_flags, load_floats}
use clight.Settings.Store.{pair_of, timeouts_of, curve_of}
use clight.Settings.Laws.{float_at, Written}
use clight.Settings.Kept.{HasRoom, kept_curve}
use Prim.Native.String.{String}

length-map : {A B : Type 0} (g : A → B) (xs : List A) → length (map g xs) ≡ length xs
length-map g [] = refl
length-map g (x ∷ xs) = ap suc (length-map g xs)

module _ {D S : Type 0} ⦃f : Float D⦄ (lib : Libconfig D S) (w : Written ⦃f = f⦄ lib) where
  open w use {entry, rounded, lookup_group, elements_array, int_array, float_array}

  abbrev file_array : List (Scalar D) → S
  file_array xs = entry (value (array xs))

  pub load_pair-back :
      (g : Group D) (name : String) (p p0 : Pair ℤ)
      → member name g ≡ some (pair_of p)
      → load_pair lib (entry (group g)) name p0 ≡ p
  load_pair-back g name p p0 e =
      let xs : List (Scalar D) = int_value p.first ∷ int_value p.second ∷ [] in
      rw (load_pair, lookup_group g name, e, elements_array xs, int_array xs 0, int_array xs 1)

  pub load_timeouts-back :
      (g : Group D) (name : String) (t t0 : DayTimeouts)
      → member name g ≡ some (timeouts_of t)
      → load_timeouts lib (entry (group g)) name t0 ≡ t
  load_timeouts-back g name t t0 e =
      let xs : List (Scalar D) =
        int_value t.by_day ∷ int_value t.by_night ∷ int_value t.by_event ∷ [] in
      rw (
        load_timeouts,
        lookup_group g name,
        e,
        elements_array xs,
        int_array xs 0,
        int_array xs 1,
        int_array xs 2,
      )

  pub load_floats-back :
      (g : Group D) (name : String) (a b : D) (p0 : Pair D)
      → member name g ≡ some (array (float_value a ∷ float_value b ∷ []))
      → load_floats lib (entry (group g)) name p0 ≡ record { first = rounded a; second = rounded b }
  load_floats-back g name a b p0 e =
      let xs : List (Scalar D) = float_value a ∷ float_value b ∷ [] in
      rw
        (load_floats, lookup_group g name, e, elements_array xs, float_array xs 0, float_array xs 1)

  -- Flags that are read as floats are 0.
  pub load_flags-back :
      (g : Group D) (name : String) (a b : Bool)
      → f.truncate (f.literal (pos 0) 1) ≡ pos 0
      → member name g ≡ some (array (bool_value a ∷ bool_value b ∷ []))
      → load_flags lib (entry (group g)) name ≡ some (record { first = false; second = false })
  load_flags-back g name a b z e =
      let xs : List (Scalar D) = bool_value a ∷ bool_value b ∷ [] in
      rw (
        load_flags,
        lookup_group g name,
        e,
        elements_array xs,
        float_array xs 0,
        float_array xs 1,
        z,
      )

  float_elems-array :
      (xs : List (Scalar D)) (ps : List D) (i : ℕ)
      → ((j : ℕ) → float_at rounded xs (i + j) ≡ float_at rounded (map float_value ps) j)
      → float_elems lib (file_array xs) i (length ps) ≡ map rounded ps
  float_elems-array xs [] i h = refl
  float_elems-array xs (p ∷ ps) i h =
      let here : float_at rounded xs i ≡ rounded p = ap (float_at rounded xs) (omega arith) ∙ h 0 in
      let next : (j : ℕ)
          → float_at rounded xs (suc i + j) ≡ float_at rounded (map float_value ps) j =
        λ j. ap (float_at rounded xs) (omega arith) ∙ h (suc j) in
      rw (float_elems, float_array xs i, here, float_elems-array xs ps (suc i) next)

  pub load_points-back :
      (g : Group D) (name : String) (c : Curve D)
      → HasRoom c
      → member name g ≡ some (curve_of c)
      → load_points lib (entry (group g)) name ≡ some (map rounded c.points)
  load_points-back g name c h e =
      let xs : List (Scalar D) = map float_value c.points in
      let sized : lib.elements (file_array xs) ≡ length c.points =
        elements_array xs ∙ length-map float_value c.points in
      let room : (ltb 0 (length c.points) && leb (length c.points) 50) ≡ true =
        ground (arith, h.0, h.1) in
      rw (
        load_points,
        lookup_group g name,
        e,
        points_of,
        sized,
        room,
        float_elems-array xs c.points 0 (λ j. ap (float_at rounded xs) (omega arith)),
      )

  pub load_curve-back :
      (g : Group D) (name : String) (c c0 : Curve D)
      → HasRoom c
      → member name g ≡ some (curve_of c)
      → load_curve lib (entry (group g)) name c0 ≡ kept_curve rounded c c0
  load_curve-back g name c c0 h e = rw (load_curve, load_points-back g name c h e)
