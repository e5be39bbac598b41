-- ===== src/Modules/Backlight/Overrides.antt =====
-- modules/backlight.c: the D-Bus methods on the curves of single monitors.
use clight.Prelude.{
  ℕ, ◌⊎◌, inl, inr, Bool, true, not, ◌&&◌, Option, none, some, List, [], ◌∷◌, map, ltb, ◌==◌,
  if◌then◌else◌, length,
}
use clight.Public.{Pair}
use clight.Commons.{Float, Curve}
use clight.Pubsub.Validations.{out_of_unit}
use clight.Settings.Read.{CurveMap, new_curve}

-- libmodule's `map_get`, `map_put`, `map_remove` and `map_has_key` on the curves, which are not under src/.
pub record CurveOps (D : Type 0) : Type 0 where
  pub map_get : List ℕ → CurveMap D → Option (Pair (Curve D))
  pub map_put : List ℕ → Pair (Curve D) → CurveMap D → CurveMap D
  pub map_remove : List ℕ → CurveMap D → CurveMap D
  pub map_has_key : List ℕ → CurveMap D → Bool

-- A method's reply: it is done, its parameters cannot be read, or an `errno`.
pub data Reply : Type 0 where
  done : Reply
  unreadable : Reply
  einval : Reply
  enoent : Reply
  enomem : Reply

abbrev pub Points : Type 0 → Type 0
Points D = Pair (List D)

module _ {D : Type 0} where
  unfoldable pub method_list_mon_override : CurveMap D → List (List ℕ × Points D)
  method_list_mon_override curves =
      map (λ (sn, c). (sn, record { first = c.first.points; second = c.second.points })) curves

module _ {D : Type 0} ⦃f : Float D⦄ where
  abbrev pub all_in_unit : List D → Bool
  all_in_unit [] = true
  all_in_unit (p ∷ ps) = not (out_of_unit p) && all_in_unit ps

  -- The array of one power supply: `none` for one that cannot be read.
  abbrev pub check_points : Option (List D) → List D ⊎ Reply
  check_points none = inr unreadable
  check_points (some ps) =
      if ltb 50 (length ps) then inr einval else if all_in_unit ps then inl ps else inr einval

  -- The curves that are stored: with the points, and fitted.
  abbrev pub with_points : (Curve D → Curve D) → Points D → Pair (Curve D) → Pair (Curve D)
  with_points fit ps c = record {
    first = fit (record c.first { points = ps.first });
    second = fit (record c.second { points = ps.second });
  }

  abbrev pub empty_curves : Pair (Curve D)
  empty_curves = record { first = new_curve []; second = new_curve [] }

  -- The numbers of points are compared with an exclusive or.
  abbrev pub apply_override :
      CurveOps D → (Curve D → Curve D) → Bool → List ℕ → Points D → CurveMap D → CurveMap D × Reply
  apply_override ops fit allocated sn ps curves =
      if not (length ps.first == length ps.second)
      then (curves, einval)
      else if length ps.first == 0
      then (if ops.map_has_key sn curves
          then (ops.map_remove sn curves, done)
          else (curves, enoent))
      else elim (ops.map_get sn curves) [
        | some c ↦ (ops.map_put sn (with_points fit ps c) curves, done)
        | none ↦
            if allocated
            then (ops.map_put sn (with_points fit ps empty_curves) curves, done)
            else (curves, enomem)
      ]

  -- `allocated` tells that `calloc` succeeds.
  unfoldable pub method_set_mon_override :
      CurveOps D
      → (Curve D → Curve D)
      → Bool
      → Option (List ℕ)
      → Option (List D)
      → Option (List D)
      → CurveMap D
      → CurveMap D × Reply
  method_set_mon_override ops fit allocated none ac batt curves = (curves, unreadable)
  method_set_mon_override ops fit allocated (some sn) ac batt curves = elim (check_points ac) [
    | inr r ↦ (curves, r)
    | inl p ↦ elim (check_points batt) [
      | inr r ↦ (curves, r)
      | inl q ↦ apply_override ops fit allocated sn (record { first = p; second = q }) curves
    ]
  ]
