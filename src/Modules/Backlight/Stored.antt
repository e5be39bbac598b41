-- ===== src/Modules/Backlight/Stored.antt =====
-- What the method that sets the curves of a monitor stores.
use clight.Prelude.{
  ℕ, ◌≤◌, ◌≡◌, refl, ◌≢◌, ◌⊎◌, inl, inr, Bool, true, false, none, some, List, arith, ltb, ◌==◌,
  Option-cases, length,
}
use clight.Public.{Pair}
use clight.Commons.{Float, Curve}
use clight.Settings.Read.{CurveMap}
use clight.Modules.Backlight.Overrides.{
  Points, all_in_unit, check_points, with_points, empty_curves, apply_override,
  method_set_mon_override, CurveOps, Reply, done,
}

-- The laws of a map that the method relies on.
pub record CurveLaws {D : Type 0} (ops : CurveOps D) : Type 0 where
  pub get-put :
      (sn : List ℕ) (c : Pair (Curve D)) (m : CurveMap D)
      → ops.map_get sn (ops.map_put sn c m) ≡ some c
  pub get-remove : (sn : List ℕ) (m : CurveMap D) → ops.map_get sn (ops.map_remove sn m) ≡ none

module _ {D : Type 0} ⦃f : Float D⦄ (ops : CurveOps D) (fit : Curve D → Curve D) where
  -- The points that are asked for are there afterwards.
  abbrev HasStored : List ℕ → Points D → CurveMap D × Reply → Type 0
  HasStored sn ps run =
      (curves : CurveMap D) × (c : Pair (Curve D)) × (run ≡ (curves, done))
      × (ops.map_get sn curves ≡ some c)
      × (c.first.points ≡ ps.first)
      × (c.second.points ≡ ps.second)

  check_points-accepts :
      (ps : List D) → length ps ≤ 50 → all_in_unit ps ≡ true → check_points (some ps) ≡ inl ps
  check_points-accepts ps h u =
      let short : ltb 50 (length ps) ≡ false = ground (arith, h) in rw (check_points, short, u) refl

  apply_override-HasStored :
      (allocated : Bool) (sn : List ℕ) (ps : Points D) (curves : CurveMap D)
      → CurveLaws ops
      → ((c : Curve D) → (fit c).points ≡ c.points)
      → length ps.first ≡ length ps.second
      → 1 ≤ length ps.first
      → (allocated ≡ true) ⊎ (ops.map_get sn curves ≢ none)
      → HasStored sn ps (apply_override ops fit allocated sn ps curves)
  apply_override-HasStored allocated sn ps curves laws q e lo room =
      let equal : (length ps.first == length ps.second) ≡ true = ground (arith, e) in
      let nonzero : (length ps.first == 0) ≡ false = ground (arith, lo) in
      let stored : (c : Pair (Curve D))
          → HasStored sn ps (ops.map_put sn (with_points fit ps c) curves, done) =
        λ c. (
          ops.map_put sn (with_points fit ps c) curves,
          with_points fit ps c,
          refl,
          laws.get-put sn (with_points fit ps c) curves,
          q (record c.first { points = ps.first }),
          q (record c.second { points = ps.second }),
        ) in
      elim (Option-cases (ops.map_get sn curves)) [
        | inr (c, there) ↦ rw (apply_override, equal, nonzero, there) (stored c)
        | inl nothing ↦ elim room [
          | inl memory ↦ rw (apply_override, equal, nonzero, nothing, memory) (stored empty_curves)
          | inr some_curves ↦ absurd (some_curves nothing)
        ]
      ]

  -- Where a map gives back what is put, and the fit leaves the points: as many points for both power supplies,
  -- from 1 to 50, none of them outside of the unit interval, are stored for the monitor, with `done` as the
  -- reply, if there is memory or the monitor has curves.
  pub method_set_mon_override-get :
      (allocated : Bool) (sn : List ℕ) (ps : Points D) (curves : CurveMap D)
      → CurveLaws ops
      → ((c : Curve D) → (fit c).points ≡ c.points)
      → length ps.first ≡ length ps.second
      → 1 ≤ length ps.first
      → length ps.first ≤ 50
      → all_in_unit ps.first ≡ true
      → all_in_unit ps.second ≡ true
      → (allocated ≡ true) ⊎ (ops.map_get sn curves ≢ none)
      → (curves' : CurveMap D) × (c : Pair (Curve D)) × (method_set_mon_override ops fit allocated
            (some sn)
            (some ps.first)
            (some ps.second)
            curves
          ≡ (curves', done))
        × (ops.map_get sn curves' ≡ some c)
        × (c.first.points ≡ ps.first)
        × (c.second.points ≡ ps.second)
  unfolding method_set_mon_override
  method_set_mon_override-get allocated sn ps curves laws q e lo hi u v room =
      let first = check_points-accepts ps.first hi u in
      let second = check_points-accepts ps.second (omega arith) v in
      rw (method_set_mon_override, first, second)
        (apply_override-HasStored allocated sn ps curves laws q e lo room)
