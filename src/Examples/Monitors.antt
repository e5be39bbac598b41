-- ===== src/Examples/Monitors.antt =====
-- The curves of single monitors at concrete inputs.
use clight.Prelude.{
  ◌≡◌, refl, ◌≢◌, ◌⊎◌, inl, true, not, Option, none, some, [], ◌∷◌, arith, ◌==◌, length, ℤ, pos,
}
use clight.Public.{Pair}
use clight.Commons.{Curve}
use clight.Settings.Read.{CurveMap}
use clight.Modules.Backlight.Overrides.{Points, method_set_mon_override, CurveOps, done}
use clight.Modules.Backlight.Stored.{method_set_mon_override-get, CurveLaws}
use clight.Modules.Backlight.Outcome.{method_set_mon_override-done_or_kept, IsDone}
use clight.Examples.Data.{hundredths}
use clight.Examples.Data.{hundredths}

-- A map of one entry.
abbrev first_entry : CurveMap ℤ → Option (Pair (Curve ℤ))
first_entry [] = none
first_entry ((k, c) ∷ m) = some c

abbrev one_entry : CurveOps ℤ
one_entry = record {
  map_get = λ k m. first_entry m;
  map_put = λ k c m. (k, c) ∷ [];
  map_remove = λ k m. [];
  map_has_key = λ k m. not (length m == 0);
}

one_entry-CurveLaws : CurveLaws one_entry
one_entry-CurveLaws = record { get-put = λ k c m. refl; get-remove = λ k m. refl }

abbrev rising : Points ℤ
rising = record { first = pos 0 ∷ pos 100 ∷ []; second = pos 0 ∷ pos 80 ∷ [] }

method_set_mon_override-get_example :
    (curves' : CurveMap ℤ) × (c : Pair (Curve ℤ)) × (method_set_mon_override one_entry
        (λ c. c)
        true
        (some (65 ∷ []))
        (some rising.first)
        (some rising.second)
        []
      ≡ (curves', done))
    × (first_entry curves' ≡ some c)
    × (c.first.points ≡ rising.first)
    × (c.second.points ≡ rising.second)
method_set_mon_override-get_example =
    method_set_mon_override-get one_entry (λ c. c) true (65 ∷ []) rising [] one_entry-CurveLaws
      (λ c. refl) refl (omega arith) (omega arith) refl refl (inl refl)

-- Two points for one power supply, and three for the other.
abbrev uneven : Points ℤ
uneven = record { first = pos 0 ∷ pos 100 ∷ []; second = pos 0 ∷ pos 50 ∷ pos 80 ∷ [] }

method_set_mon_override-done_or_kept_example :
    let (curves', r) =
      method_set_mon_override one_entry
        (λ c. c)
        true
        (some (65 ∷ []))
        (some uneven.first)
        (some uneven.second)
        [] in
    ((r ≢ done) × (curves' ≡ []))
    ⊎ ((r ≡ done)
        × IsDone one_entry
            (λ c. c)
            (some (65 ∷ []))
            (some uneven.first)
            (some uneven.second)
            curves')
method_set_mon_override-done_or_kept_example =
    method_set_mon_override-done_or_kept one_entry (λ c. c) true (some (65 ∷ []))
      (some uneven.first) (some uneven.second) [] one_entry-CurveLaws (λ c. refl)
