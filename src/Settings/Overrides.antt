-- ===== src/Settings/Overrides.antt =====
-- The curves of single monitors and the place, written to a file and read again.
use clight.Prelude.{
  ℕ, zero, suc, ◌+◌, ◌≤◌, ◌≡◌, refl, ap, ◌∙◌, Bool, true, false, none, some, List, [], ◌∷◌, ◌++◌,
  map, arith, if◌then◌else◌, ◌>>=◌, length, get_elem?, take,
}
use clight.Public.{Pair, Loc}
use clight.Commons.{Float, Curve, SensorConf, DaytimeConf}
use clight.Settings.{Group, member, Libconfig, string_value, Value, scalar, group, groups}
use clight.Settings.Load.{or_else, is_empty, load_day_settings}
use clight.Settings.Read.{
  CurveMap, new_curve, load_override, load_overrides, load_override_settings,
}
use clight.Settings.Store.{
  int_of, float_of, override_of, store_override_settings, has_place, store_daytime_settings,
}
use clight.Settings.Laws.{read_int, read_float, read_string, Written}
use clight.Settings.Kept.{HaveRoom, OverridesStorable, kept_overrides, kept_daytime}
use clight.Settings.Arrays.{load_points-back}

get_elem?-map :
    {A B : Type 0} (g : A → B) (xs : List A) (i : ℕ) (x : A)
    → get_elem? xs i ≡ some x
    → get_elem? (map g xs) i ≡ some (g x)
get_elem?-map g [] i x e = cc
get_elem?-map g (y ∷ xs) zero x e = cc
get_elem?-map g (y ∷ xs) (suc i) x e = get_elem?-map g xs i x e

length-map : {A B : Type 0} (g : A → B) (xs : List A) → length (map g xs) ≡ length xs
length-map g [] = refl
length-map g (x ∷ xs) = ap suc (length-map g xs)

take-all : {A : Type 0} (n : ℕ) (xs : List A) → length xs ≤ n → take n xs ≡ xs
take-all zero [] h = refl
take-all zero (x ∷ xs) h = absurd (omega arith)
take-all (suc n) [] h = refl
take-all (suc n) (x ∷ xs) h = ap (λ ys. x ∷ ys) (take-all n xs (omega arith))

-- The place may be left out.
daytime_members :
    {D : Type 0} (here : Bool) (lat lon a b c d e : Value D)
    → let rest : Group D =
        ("event_duration", a)
        ∷ ("sunrise_offset", b)
        ∷ ("sunset_offset", c)
        ∷ ("sunrise", d)
        ∷ ("sunset", e)
        ∷ [] in
      let g = (if here then ("latitude", lat) ∷ ("longitude", lon) ∷ [] else []) ++ rest in
      (member "latitude" g ≡ (if here then some lat else none))
      × (member "longitude" g ≡ (if here then some lon else none))
      × (member "event_duration" g ≡ some a)
      × (member "sunrise_offset" g ≡ some b)
      × (member "sunset_offset" g ≡ some c)
      × (member "sunrise" g ≡ some d)
      × (member "sunset" g ≡ some e)
daytime_members false lat lon a b c d e = (refl, refl, refl, refl, refl, refl, refl)
daytime_members true lat lon a b c d e = (refl, refl, refl, refl, refl, refl, refl)

module _ {D S : Type 0} ⦃f : Float D⦄ (lib : Libconfig D S) (w : Written ⦃f = f⦄ lib)
    (cfg : S) where
  open w use {entry, rounded, float_group, int_group, string_group, elements_groups, elem_groups}

  place-back :
      (here : Bool) (l l0 : Loc D)
      → (record {
        lat =
            or_else ((if here then some (float_of l.lat) else none) >>= read_float rounded) l0.lat;
        lon =
            or_else ((if here then some (float_of l.lon) else none) >>= read_float rounded) l0.lon;
      })
        ≡ (if here then record { lat = rounded l.lat; lon = rounded l.lon } else l0)
  place-back false l l0 = refl
  place-back true l l0 = refl

  pub daytime-back :
      (c c0 : DaytimeConf D)
      → length c.day_events.first ≤ 9
      → length c.day_events.second ≤ 9
      → lib.lookup cfg "daytime" ≡ some (entry (group (store_daytime_settings c)))
      → load_day_settings lib cfg c0 ≡ kept_daytime rounded c c0
  unfolding load_day_settings store_daytime_settings
  daytime-back c c0 h h' e =
      let g = store_daytime_settings c in
      let m =
        daytime_members (has_place c.loc) (float_of c.loc.lat) (float_of c.loc.lon)
          (int_of c.event_duration) (int_of c.events_os.first) (int_of c.events_os.second)
          (scalar (string_value c.day_events.first)) (scalar (string_value c.day_events.second)) in
      let lat = float_group g "latitude" ∙ ap (λ v. v >>= read_float rounded) m.0 in
      let lon = float_group g "longitude" ∙ ap (λ v. v >>= read_float rounded) m.1 in
      let duration = int_group g "event_duration" ∙ ap (λ v. v >>= read_int) m.2 in
      let rise = int_group g "sunrise_offset" ∙ ap (λ v. v >>= read_int) m.3 in
      let fall = int_group g "sunset_offset" ∙ ap (λ v. v >>= read_int) m.4 in
      let first = string_group g "sunrise" ∙ ap (λ v. v >>= read_string) m.5 in
      let second = string_group g "sunset" ∙ ap (λ v. v >>= read_string) m.6 in
      rw (e, load_day_settings)
        (simp (
          lat,
          lon,
          duration,
          rise,
          fall,
          first,
          second,
          take-all 9 _ h,
          take-all 9 _ h',
          place-back (has_place c.loc) c.loc c0.loc,
        ))

  load_override-back :
      (key : List ℕ) (c : Pair (Curve D))
      → is_empty key ≡ false
      → HaveRoom c
      → load_override lib (entry (group (override_of (key, c))))
        ≡ some (
          key,
          record {
            first = new_curve (map rounded c.first.points);
            second = new_curve (map rounded c.second.points);
          },
        )
  load_override-back key c e h =
      let g = override_of (key, c) in
      let ac = load_points-back lib w g "ac_regression_points" c.first h.0 refl in
      let batt = load_points-back lib w g "batt_regression_points" c.second h.1 refl in
      rw (load_override, string_group g "monitor_id", e, ac, batt)

  module _ (map_put : List ℕ → Pair (Curve D) → CurveMap D → CurveMap D) where
    overrides-back :
        (gs : List (Group D)) (i : ℕ) (cs m : CurveMap D)
        → ((j : ℕ) (x : List ℕ × Pair (Curve D))
            → get_elem? cs j ≡ some x
            → get_elem? gs (i + j) ≡ some (override_of x))
        → OverridesStorable cs
        → load_overrides lib map_put (entry (groups gs)) i (length cs) m
          ≡ kept_overrides rounded map_put cs m
    unfolding load_overrides kept_overrides
    overrides-back gs i [] m h s = refl
    overrides-back gs i ((key, c) ∷ cs) m h s =
        let here : get_elem? gs i ≡ some (override_of (key, c)) =
          ap (get_elem? gs) (omega arith) ∙ h 0 (key, c) refl in
        let next : (j : ℕ) (x : List ℕ × Pair (Curve D))
            → get_elem? cs j ≡ some x
            → get_elem? gs (suc i + j) ≡ some (override_of x) =
          λ j x e. ap (get_elem? gs) (omega arith) ∙ h (suc j) x e in
        rw
          (
            load_overrides,
            elem_groups gs i (override_of (key, c)) here,
            load_override-back key c s.0 s.1,
          )
          (overrides-back gs (suc i) cs _ next s.2)

    pub override-back :
        (c c0 : SensorConf D)
        → OverridesStorable c.specific_curves
        → lib.lookup cfg "monitor_override" ≡ some (entry (groups (store_override_settings c)))
        → load_override_settings lib map_put cfg c0 ≡ record c0 {
          specific_curves = kept_overrides rounded map_put c.specific_curves c0.specific_curves;
        }
    unfolding load_override_settings store_override_settings
    override-back c c0 s e =
        let cs = c.specific_curves in
        let gs = map override_of cs in
        let sized = elements_groups gs ∙ length-map override_of cs in
        let same =
          overrides-back gs 0 cs c0.specific_curves
            (λ j x q. ap (get_elem? gs) (omega arith) ∙ get_elem?-map override_of cs j x q) s in
        rw (e, load_override_settings, sized) (ap (λ m. record c0 { specific_curves = m }) same)
