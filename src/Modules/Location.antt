-- ===== src/Modules/Location.antt =====
-- modules/location.c: the place, from a cache file, from Geoclue or from a request. The cache file's contents are
-- a parameter, with the C library's `fprintf` and `fscanf` on them: `none` is a file that is not there.
pub mod Cache
pub mod Announced
use clight.Prelude.{
  Bool, false, not, ◌&&◌, ◌||◌, Option, none, some, List, [], ◌∷◌, ◌++◌, ◌==◌, if◌then◌else◌,
  length, pos,
}
use clight.Public.{Loc, LocUpd, loc_upd, location_req}
use clight.Commons.{
  Float, Conf, State, timeout_fd, Effect, publish, deregister, deregister_fd, Input, fd_upd,
  loop_started, loop_stopped, user,
}
use clight.Utils.Timer.{set_timeout}
use clight.Utils.MyMath.{Libm}
use clight.Pubsub.Validations.{validate_loc}
use clight.Settings.{lat_undefined, lon_undefined}

pub data GeoclueState : Type 0 where
  geoclue_none : GeoclueState
  geoclue_present : GeoclueState
  geoclue_started : GeoclueState
  geoclue_failed : GeoclueState

-- `geoclue_st`, and whether `timeout_fd` is not -1.
pub record LocModule : Type 0 where
  pub geoclue_st : GeoclueState
  pub has_timeout : Bool

-- `print` and `scan` are the calls with the format `%lf %lf`.
pub record CacheFile (D F : Type 0) : Type 0 where
  pub print : Loc D → F
  pub scan : F → Option (Loc D)

-- What comes: an input, with whether Geoclue gives a client and whether the file can be opened for writing; the
-- answer to the call for a client; and a place from Geoclue, `none` if it cannot be read.
pub data LocEvent (D : Type 0) : Type 0 where
  loc_input : Input D → Bool → Bool → LocEvent D
  client_answer : Bool → LocEvent D
  new_location : Option (Loc D) → LocEvent D

abbrev pub LocResult : Type 0 → Type 0 → Type 0
LocResult D F = LocModule × State D × Option F × List (Effect D)

module _ {D : Type 0} where
  abbrev pub place_of : Loc D → State D → LocUpd D
  place_of new s = record { old = s.current_loc; new = new }

  unfoldable pub fail_geoclue : GeoclueState → LocModule → LocModule × List (Effect D)
  unfolding set_timeout
  fail_geoclue st m = (
    record m { geoclue_st = st },
    if m.has_timeout then set_timeout (pos 0) (pos 1) timeout_fd ∷ [] else [],
  )

  unfoldable pub on_geoclue_new_location :
      Option (Loc D) → State D → LocModule → LocModule × List (Effect D)
  on_geoclue_new_location none s m = (m, [])
  on_geoclue_new_location (some new) s m = (
    record m { has_timeout = false },
    publish (location_req (place_of new s))
        ∷ (if m.has_timeout then deregister_fd timeout_fd ∷ [] else []),
  )

  -- `ok`: there is a client, its signal is listened to, and it is started.
  unfoldable pub on_get_client : Bool → LocModule → LocModule × List (Effect D)
  unfolding fail_geoclue
  on_get_client ok m =
      if ok then (record m { geoclue_st = geoclue_started }, []) else fail_geoclue geoclue_failed m

module _ {D F : Type 0} (file : CacheFile D F) where
  unfoldable pub load_cache_location : Option F → State D → List (Effect D)
  load_cache_location none s = []
  load_cache_location (some contents) s = elim (file.scan contents) [
    | none ↦ []
    | some new ↦ publish (location_req (place_of new s)) ∷ []
  ]

  unfoldable pub cache_location : ⦃f : Float D⦄ → Bool → State D → Option F → Option F
  cache_location ⦃f⦄ writable s cache =
      let known =
        not (f.eq s.current_loc.lat lat_undefined) && not (f.eq s.current_loc.lon lon_undefined) in
      if known && writable then some (file.print s.current_loc) else cache

module _ {D : Type 0} ⦃f : Float D⦄ where
  -- Does the module start at all?
  unfoldable pub evaluate : Conf D → Bool
  evaluate c =
      let loc = c.day_conf.loc in
      let events = c.day_conf.day_events in
      not c.wizard
      && ((f.eq loc.lat lat_undefined || f.eq loc.lon lon_undefined)
          && ((length events.first == 0) || (length events.second == 0)))

module _ {D : Type 0} ⦃f : Float D⦄ (libm : Libm D) where
  -- The state gets the place after it has been announced.
  unfoldable pub on_location_req : LocUpd D → State D → State D × List (Effect D)
  on_location_req l s =
      if validate_loc libm s l
      then (record s { current_loc = l.new }, publish (loc_upd (place_of l.new s)) ∷ [])
      else (s, [])

module _ {D F : Type 0} ⦃f : Float D⦄ (libm : Libm D) (file : CacheFile D F) where
  unfoldable pub receive : Input D → Bool → Bool → State D → LocModule → Option F → LocResult D F
  unfolding on_location_req fail_geoclue load_cache_location cache_location
  receive (fd_upd fd ptr) geoclue writable s m cache =
      let unknown = f.eq s.current_loc.lat lat_undefined || f.eq s.current_loc.lon lon_undefined in
      let told : List (Effect D) =
        if unknown
        then publish (loc_upd (place_of (record { lat = lat_undefined; lon = lon_undefined }) s))
          ∷ []
        else [] in
      (m, s, cache, told ++ (deregister ∷ []))
  receive (user from (location_req l)) geoclue writable s m cache =
      let (s', es) = on_location_req libm l s in (m, s', cache, es)
  receive loop_started geoclue writable s m cache =
      let (failed, es) = fail_geoclue geoclue_none m in
      let loaded = load_cache_location file cache s in
      if geoclue
      then (record m { geoclue_st = geoclue_present }, s, cache, loaded)
      else (failed, s, cache, loaded ++ es)
  receive loop_stopped geoclue writable s m cache = (m, s, cache_location file writable s cache, [])
  receive _ geoclue writable s m cache = (m, s, cache, [])

  unfoldable pub handle : LocEvent D → State D → LocModule → Option F → LocResult D F
  unfolding receive on_get_client on_geoclue_new_location
  handle (loc_input i geoclue writable) s m cache = receive i geoclue writable s m cache
  handle (client_answer ok) s m cache = let (m', es) = on_get_client ok m in (m', s, cache, es)
  handle (new_location l) s m cache =
      let (m', es) = on_geoclue_new_location l s m in (m', s, cache, es)
