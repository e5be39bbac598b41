-- ===== src/Modules/Location/Announced.antt =====
-- The place that LOCATION announces last is the one that the state has.
use clight.Prelude.{
  ◌≡◌, refl, ap, ◌∙◌, ◌⊎◌, inl, inr, Bool, true, false, Option, none, some, List, [], ◌∷◌, ◌++◌,
  arith, Bool-cases, Option-cases, pos,
}
use clight.Public.{Loc, LocUpd, loc_upd, location_req}
use clight.Commons.{Float, State, Effect, publish, fd_upd, loop_started, loop_stopped, user}
use clight.Utils.Timer.{set_timeout}
use clight.Utils.MyMath.{of_int, Libm}
use clight.Pubsub.Validations.{validate_loc}
use clight.Modules.Location.{
  LocResult, fail_geoclue, on_geoclue_new_location, on_get_client, load_cache_location,
  on_location_req, receive, handle, LocModule, CacheFile, GeoclueState, geoclue_none,
  geoclue_failed, LocEvent, loc_input, client_answer, new_location,
}

module _ {D : Type 0} where
  abbrev said_one : Effect D → Loc D → Loc D
  said_one (publish (loc_upd up)) l = up.new
  said_one _ l = l

  -- The place that is announced last, from one before.
  abbrev pub last_place : List (Effect D) → Loc D → Loc D
  last_place [] l = l
  last_place (e ∷ es) l = last_place es (said_one e l)

  last_place-append :
      (xs ys : List (Effect D)) (l : Loc D)
      → last_place (xs ++ ys) l ≡ last_place ys (last_place xs l)
  last_place-append [] ys l = refl
  last_place-append (x ∷ xs) ys l = last_place-append xs ys (said_one x l)

  -- The timer does not fire.
  abbrev pub IsAlive : LocEvent D → Type 0
  IsAlive (loc_input (fd_upd fd ptr) geoclue writable) = ⊥
  IsAlive _ = Unit

  abbrev pub AllAlive : List (LocEvent D) → Type 0
  AllAlive [] = Unit
  AllAlive (e ∷ es) = IsAlive e × AllAlive es

module _ {D F : Type 0} ⦃f : Float D⦄ (libm : Libm D) (file : CacheFile D F) where
  -- A place that is in range, or the one from the beginning.
  abbrev pub InRange : Loc D → Loc D → Type 0
  InRange start l =
      (l ≡ start)
      ⊎ ((f.lt (f.fabs l.lat) (of_int (pos 90)) ≡ true)
          × (f.lt (f.fabs l.lon) (of_int (pos 180)) ≡ true))

  abbrev Tells : Loc D → State D → LocResult D F → Type 0
  Tells start s (m, s', cache, es) =
      (last_place es s.current_loc ≡ s'.current_loc) × InRange start s'.current_loc

  fail-quiet :
      (st : GeoclueState) (m : LocModule) (l : Loc D) → last_place ((fail_geoclue st m).1) l ≡ l
  unfolding fail_geoclue set_timeout
  fail-quiet st m l = elim (Bool-cases m.has_timeout) [ inl y ↦ rw y refl | inr n ↦ rw n refl ]

  load-quiet :
      (cache : Option F) (s : State D) (l : Loc D)
      → last_place (load_cache_location file cache s) l ≡ l
  unfolding load_cache_location
  load-quiet none s l = refl
  load-quiet (some x) s l = elim (Option-cases (file.scan x)) [
    | inl e ↦ rw (load_cache_location, e) refl
    | inr (p, e) ↦ rw (load_cache_location, e) refl
  ]

  validate_loc-in_range :
      (l : LocUpd D) (s : State D)
      → validate_loc libm s l ≡ true
      → (f.lt (f.fabs l.new.lat) (of_int (pos 90)) ≡ true)
        × (f.lt (f.fabs l.new.lon) (of_int (pos 180)) ≡ true)
  unfolding validate_loc
  validate_loc-in_range l s valid = (ground (arith, valid), ground (arith, valid))

  request-Tells :
      (start : Loc D) (l : LocUpd D) (s : State D) (m : LocModule) (cache : Option F)
      → InRange start s.current_loc
      → let (s', es) = on_location_req libm l s in Tells start s (m, s', cache, es)
  unfolding on_location_req
  request-Tells start l s m cache r = elim (Bool-cases (validate_loc libm s l)) [
    | inl valid ↦ rw (on_location_req, valid) (refl, inr (validate_loc-in_range l s valid))
    | inr invalid ↦ rw (on_location_req, invalid) (refl, r)
  ]

  started-Tells :
      (start : Loc D) (geoclue writable : Bool) (s : State D) (m : LocModule) (cache : Option F)
      → InRange start s.current_loc
      → Tells start s (receive libm file loop_started geoclue writable s m cache)
  unfolding receive
  started-Tells start true writable s m cache r = (load-quiet cache s s.current_loc, r)
  started-Tells start false writable s m cache r =
      let loaded = load_cache_location file cache s in
      let failed = (fail_geoclue geoclue_none m).1 in
      let quiet =
        last_place-append loaded failed s.current_loc
        ∙ ap (last_place failed) (load-quiet cache s s.current_loc)
        ∙ fail-quiet geoclue_none m s.current_loc in
      (quiet, r)

  handle-Tells :
      (start : Loc D) (e : LocEvent D) (s : State D) (m : LocModule) (cache : Option F)
      → IsAlive e
      → InRange start s.current_loc
      → Tells start s (handle libm file e s m cache)
  unfolding handle receive on_get_client on_geoclue_new_location
  handle-Tells start (loc_input (fd_upd fd ptr) geoclue writable) s m cache a r = absurd a
  handle-Tells start (loc_input (user from (location_req l)) geoclue writable) s m cache a r =
      request-Tells start l s m cache r
  handle-Tells start (loc_input loop_started geoclue writable) s m cache a r =
      started-Tells start geoclue writable s m cache r
  handle-Tells start (loc_input loop_stopped geoclue writable) s m cache a r = (refl, r)
  handle-Tells start (loc_input _ geoclue writable) s m cache a r = (refl, r)
  handle-Tells start (client_answer true) s m cache a r = (refl, r)
  handle-Tells start (client_answer false) s m cache a r =
      (fail-quiet geoclue_failed m s.current_loc, r)
  handle-Tells start (new_location none) s m cache a r = (refl, r)
  handle-Tells start (new_location (some l)) s m cache a r = elim (Bool-cases m.has_timeout) [
    | inl y ↦ rw y (refl, r)
    | inr n ↦ rw n (refl, r)
  ]

  -- What comes one after another. Only LOCATION writes the place.
  unfoldable pub handle_all : List (LocEvent D) → State D → LocModule → Option F → LocResult D F
  handle_all [] s m cache = (m, s, cache, [])
  handle_all (e ∷ es) s m cache =
      let (m1, s1, cache1, fs) = handle libm file e s m cache in
      let (m2, s2, cache2, gs) = handle_all es s1 m1 cache1 in (m2, s2, cache2, fs ++ gs)

  -- Whatever comes before the timer fires: the place that LOCATION announces last, or the one from the beginning
  -- if it announces none, is the state's, and it is the one from the beginning or is in range.
  pub last_place-handle_all :
      (es : List (LocEvent D)) (start : Loc D) (s : State D) (m : LocModule) (cache : Option F)
      → AllAlive es
      → InRange start s.current_loc
      → let (m', s', cache', fs) = handle_all es s m cache in
        (last_place fs s.current_loc ≡ s'.current_loc) × InRange start s'.current_loc
  unfolding handle_all
  last_place-handle_all [] start s m cache a r = (refl, r)
  last_place-handle_all (e ∷ es) start s m cache (a, alive) r =
      let (m1, s1, cache1, fs) = handle libm file e s m cache in
      let (m2, s2, cache2, gs) = handle_all es s1 m1 cache1 in
      let (same, r1) = handle-Tells start e s m cache a r in
      let (same', r2) = last_place-handle_all es start s1 m1 cache1 alive r1 in
      (last_place-append fs gs s.current_loc ∙ ap (last_place gs) same ∙ same', r2)
