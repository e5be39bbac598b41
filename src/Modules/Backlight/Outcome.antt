-- ===== src/Modules/Backlight/Outcome.antt =====
-- The method that sets the curves of a monitor does what it was asked for, or leaves all curves as they were.
use clight.Prelude.{
  ℕ, ◌≤◌, ◌≡◌, refl, ◌≢◌, ◌⊎◌, inl, inr, Bool, true, Option, none, some, List, arith, ltb, ◌==◌,
  Bool-cases, Option-cases, length,
}
use clight.Public.{Pair}
use clight.Commons.{Float, Curve}
use clight.Settings.Read.{CurveMap}
use clight.Modules.Backlight.Overrides.{
  Points, all_in_unit, check_points, with_points, empty_curves, apply_override,
  method_set_mon_override, CurveOps, Reply, done, unreadable, einval,
}
use clight.Modules.Backlight.Stored.{CurveLaws}

module _ {D : Type 0} ⦃f : Float D⦄ (ops : CurveOps D) (fit : Curve D → Curve D) where
  -- The points are what is stored for the name; without points, nothing is.
  abbrev pub Applied : List ℕ → Points D → CurveMap D → Type 0
  Applied name ps curves =
      ((length ps.first ≡ 0) × (ops.map_get name curves ≡ none))
      ⊎ ((c : Pair (Curve D)) × (ops.map_get name curves ≡ some c)
          × (c.first.points ≡ ps.first)
          × (c.second.points ≡ ps.second))

  -- The method is done with a monitor: as many points for both power supplies, at most 50, and in the unit
  -- interval, were read, and they are what is stored for the monitor now; without points, nothing is.
  pub record IsDone (sn : Option (List ℕ)) (ac batt : Option (List D)) (curves : CurveMap D)
      : Type 0 where
    pub name : List ℕ
    pub ps : Points D
    pub named : sn ≡ some name
    pub ac_read : ac ≡ some ps.first
    pub batt_read : batt ≡ some ps.second
    pub equal : length ps.first ≡ length ps.second
    pub short : length ps.first ≤ 50
    pub ac_in_unit : all_in_unit ps.first ≡ true
    pub batt_in_unit : all_in_unit ps.second ≡ true
    pub applied : Applied name ps curves

  -- An array is refused, or it is short enough and in the unit interval.
  check_points-read :
      (o : Option (List D))
      → ((r : Reply) × (check_points o ≡ inr r) × (r ≢ done))
        ⊎ ((ps : List D) × (o ≡ some ps)
            × (check_points o ≡ inl ps)
            × (length ps ≤ 50)
            × (all_in_unit ps ≡ true))
  check_points-read none = inl (unreadable, refl, λ e. ground (arith, e))
  check_points-read (some ps) = elim (Bool-cases (ltb 50 (length ps))) [
    | inl long ↦ inl (einval, rw long, λ e. ground (arith, e))
    | inr short ↦ elim (Bool-cases (all_in_unit ps)) [
      | inl u ↦ inr (ps, refl, rw (short, u), ground (arith, short), u)
      | inr n ↦ inl (einval, rw (short, n), λ e. ground (arith, e))
    ]
  ]

  apply_override-outcome :
      (allocated : Bool) (name : List ℕ) (ps : Points D) (curves : CurveMap D)
      → CurveLaws ops
      → ((c : Curve D) → (fit c).points ≡ c.points)
      → let (curves', r) = apply_override ops fit allocated name ps curves in
        ((r ≢ done) × (curves' ≡ curves))
        ⊎ ((r ≡ done) × (length ps.first ≡ length ps.second) × Applied name ps curves')
  apply_override-outcome allocated name ps curves laws q =
      let stored : (c : Pair (Curve D))
          → Applied name ps (ops.map_put name (with_points fit ps c) curves) =
        λ c. inr (
          with_points fit ps c,
          laws.get-put name (with_points fit ps c) curves,
          q (record c.first { points = ps.first }),
          q (record c.second { points = ps.second }),
        ) in
      elim (Bool-cases (length ps.first == length ps.second)) [
        | inr n ↦ rw n (inl (λ e. ground (arith, e), refl))
        | inl y ↦ elim (Bool-cases (length ps.first == 0)) [
          | inl zero_points ↦ elim (Bool-cases (ops.map_has_key name curves)) [
            | inl known ↦
                rw (y, zero_points, known)
                  (inr (
                    refl,
                    ground (arith, y),
                    inl (ground (arith, zero_points), laws.get-remove name curves),
                  ))
            | inr unknown ↦ rw (y, zero_points, unknown) (inl (λ e. ground (arith, e), refl))
          ]
          | inr more ↦ elim (Option-cases (ops.map_get name curves)) [
            | inr (c, there) ↦ rw (y, more, there) (inr (refl, ground (arith, y), stored c))
            | inl nothing ↦ elim (Bool-cases allocated) [
              | inl memory ↦
                  rw (y, more, nothing, memory) (inr (refl, ground (arith, y), stored empty_curves))
              | inr full ↦ rw (y, more, nothing, full) (inl (λ e. ground (arith, e), refl))
            ]
          ]
        ]
      ]

  -- Where a map gives back what is put and nothing for what is removed, and the fit leaves the points, for
  -- any name and arrays, read or not: the method refuses, and the curves of all monitors stay as they were;
  -- or its reply is `done`, as many points, at most 50, were read for both power supplies, all of them in
  -- the unit interval, and they are what is stored for the monitor, nothing if there are no points.
  pub method_set_mon_override-done_or_kept :
      (allocated : Bool) (sn : Option (List ℕ)) (ac batt : Option (List D)) (curves : CurveMap D)
      → CurveLaws ops
      → ((c : Curve D) → (fit c).points ≡ c.points)
      → let (curves', r) = method_set_mon_override ops fit allocated sn ac batt curves in
        ((r ≢ done) × (curves' ≡ curves)) ⊎ ((r ≡ done) × IsDone sn ac batt curves')
  unfolding method_set_mon_override
  method_set_mon_override-done_or_kept allocated none ac batt curves laws q =
      inl (λ e. ground (arith, e), refl)
  method_set_mon_override-done_or_kept allocated (some name) ac batt curves laws q =
      elim (check_points-read ac) [
        | inl (r, e, n) ↦ rw (method_set_mon_override, e) (inl (n, refl))
        | inr (ps, read, e, short, u) ↦ elim (check_points-read batt) [
          | inl (r, e', n) ↦ rw (method_set_mon_override, e, e') (inl (n, refl))
          | inr (qs, read', e', short', u') ↦
              rw (method_set_mon_override, e, e')
                (finish ps qs read read' short u u' (
                  apply_override-outcome allocated name (record { first = ps; second = qs }) curves
                    laws q))
        ]
      ]
    where
      finish :
          (ps qs : List D)
          → ac ≡ some ps
          → batt ≡ some qs
          → length ps ≤ 50
          → all_in_unit ps ≡ true
          → all_in_unit qs ≡ true
          → let (curves', r) =
              apply_override ops fit allocated name (record { first = ps; second = qs }) curves in
            ((r ≢ done) × (curves' ≡ curves))
              ⊎ ((r ≡ done)
                  × (length ps ≡ length qs)
                  × Applied name (record { first = ps; second = qs }) curves')
            → ((r ≢ done) × (curves' ≡ curves)) ⊎ ((r ≡ done) × IsDone (some name) ac batt curves')
      finish ps qs read read' short u u' (inl refused) = inl refused
      finish ps qs read read' short u u' (inr (finished, same, applied)) = inr (
        finished,
        record {
          name = name;
          ps = record { first = ps; second = qs };
          named = refl;
          ac_read = read;
          batt_read = read';
          equal = same;
          short = short;
          ac_in_unit = u;
          batt_in_unit = u';
          applied = applied;
        },
      )
