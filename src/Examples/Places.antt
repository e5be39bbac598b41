-- ===== src/Examples/Places.antt =====
-- The place at concrete inputs.
use clight.Prelude.{◌≡◌, refl, inl, true, none, some, List, [], ◌∷◌, ◌*ℤ◌, abs, ℤ, pos}
use clight.Public.{Loc, loc_upd, location_req}
use clight.Commons.{State, other_module, publish, loop_started, loop_stopped, user}
use clight.Utils.MyMath.{rad_to_deg, get_distance, Libm}
use clight.Pubsub.Validations.{validate_loc}
use clight.Modules.Location.{
  place_of, receive, LocModule, CacheFile, geoclue_none, LocEvent, loc_input, new_location,
}
use clight.Modules.Location.Cache.{cached-loaded}
use clight.Modules.Location.Announced.{last_place, InRange, handle_all, last_place-handle_all}
use clight.Examples.Data.{hundredths, state}
use clight.Examples.Data.{hundredths}

-- Distances are long, as the arc cosine is.
abbrev far : Libm ℤ
far = record { pow = λ a b. a; sin = λ a. a; cos = λ a. a; acos = λ a. pos 1000000; pi = pos 314 }

-- The contents are the place.
abbrev copy : CacheFile ℤ (Loc ℤ)
copy = record { print = λ l. l; scan = λ l. some l }

abbrev starting : LocModule
starting = record { geoclue_st = geoclue_none; has_timeout = true }

abbrev elsewhere : Loc ℤ
elsewhere = record { lat = pos 1000; lon = pos 2000 }

abbrev unplaced : State ℤ
unplaced = record state { current_loc = record { lat = pos 9100; lon = pos 18100 } }

far_enough : validate_loc far unplaced (place_of state.current_loc unplaced) ≡ true
unfolding validate_loc abs get_distance ◌*ℤ◌ rad_to_deg
far_enough = refl

cached-loaded_example :
    let (m1, s1, written, es1) = receive far copy loop_stopped true true state starting none in
    let up = place_of state.current_loc unplaced in
    let (n1, s2, written2, es2) =
      receive far copy loop_started true true unplaced starting written in
    let (n3, s3, written3, es3) =
      receive far copy (user other_module (location_req up)) true true s2 n1 written2 in
    (es2 ≡ publish (location_req up) ∷ [])
    × (s3.current_loc ≡ state.current_loc)
    × (es3 ≡ publish (loc_upd up) ∷ [])
cached-loaded_example =
    cached-loaded far copy (λ l. l) state unplaced starting starting none (λ l. refl) refl refl
      far_enough

abbrev session : List (LocEvent ℤ)
session =
    loc_input loop_started true true
    ∷ new_location (some elsewhere)
    ∷ loc_input
        (user other_module (location_req (record { old = unplaced.current_loc; new = elsewhere })))
        true true
    ∷ loc_input loop_stopped true true
    ∷ []

last_place-handle_all_example :
    let (m', s', cache', fs) = handle_all far copy session unplaced starting none in
    (last_place fs unplaced.current_loc ≡ s'.current_loc)
    × InRange far copy unplaced.current_loc s'.current_loc
last_place-handle_all_example =
    last_place-handle_all far copy session unplaced.current_loc unplaced starting none
      (tt, (tt, (tt, (tt, tt)))) (inl refl)
