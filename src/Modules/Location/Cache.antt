-- ===== src/Modules/Location/Cache.antt =====
-- A place that is cached when the loop stops, and loaded when the next one starts.
use clight.Prelude.{◌≡◌, refl, true, false, Option, some, [], ◌∷◌}
use clight.Public.{Loc, loc_upd, location_req}
use clight.Commons.{Float, State, other_module, publish, loop_started, loop_stopped, user}
use clight.Utils.MyMath.{Libm}
use clight.Pubsub.Validations.{validate_loc}
use clight.Settings.{lat_undefined, lon_undefined}
use clight.Modules.Location.{
  place_of, load_cache_location, cache_location, on_location_req, receive, LocModule, CacheFile,
}

module _ {D F : Type 0} ⦃f : Float D⦄ (libm : Libm D) (file : CacheFile D F) where
  -- A place with both coordinates, in a file that can be written, is asked for when the next loop starts, as
  -- it was printed, where Geoclue is there; and where the printed place passes the check of
  -- requests, the request stores it, and announces it with the place from before.
  pub cached-loaded :
      (rounded : Loc D → Loc D) (s next : State D) (m n : LocModule) (cache : Option F)
      → ((l : Loc D) → file.scan (file.print l) ≡ some (rounded l))
      → f.eq s.current_loc.lat lat_undefined ≡ false
      → f.eq s.current_loc.lon lon_undefined ≡ false
      → validate_loc libm next (place_of (rounded s.current_loc) next) ≡ true
      → let (m1, s1, written, es1) = receive libm file loop_stopped true true s m cache in
        let up = place_of (rounded s.current_loc) next in
        let (n1, s2, written2, es2) = receive libm file loop_started true true next n written in
        let (n3, s3, written3, es3) =
          receive libm file (user other_module (location_req up)) true true s2 n1 written2 in
        (es2 ≡ publish (location_req up) ∷ [])
        × (s3.current_loc ≡ rounded s.current_loc)
        × (es3 ≡ publish (loc_upd up) ∷ [])
  unfolding receive load_cache_location cache_location on_location_req
  cached-loaded rounded s next m n cache law lat lon valid =
      let kept : cache_location file true s cache ≡ some (file.print s.current_loc) =
        rw (cache_location, lat, lon) refl in
      let loaded : load_cache_location file (some (file.print s.current_loc)) next
          ≡ publish (location_req (place_of (rounded s.current_loc) next)) ∷ [] =
        rw (load_cache_location, law s.current_loc) refl in
      (rw (kept, loaded) refl, rw (on_location_req, valid) refl, rw (on_location_req, valid) refl)
