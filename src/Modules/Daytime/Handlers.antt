-- ===== src/Modules/Daytime/Handlers.antt =====
-- The messages of modules/daytime.c. `located`: LOCATION runs.
use clight.Prelude.{ℕ, Bool, Option, none, some, List, [], ◌∷◌, if◌then◌else◌, ◌>>=◌, ℤ, pos}
use clight.Public.{day, Pair, EvtUpd, loc_upd, daytime_upd, sunrise_req, sunset_req}
use clight.Commons.{
  Float, Conf, State, day_fd, Effect, publish, unbecome, stop, register_fd, settime, Input, fd_upd,
  loop_started, user,
}
use clight.Pubsub.Validations.{validate_evt}
use clight.Modules.Daytime.{check_daytime, reset_daytime}
use clight.Utils.MyMath.Sun.{Sun}

module _ {D : Type 0} where
  -- The timer is created, armed for one nanosecond, and registered.
  unfoldable pub start_daytime : List (Effect D)
  start_daytime = settime day_fd (pos 0) (pos 1) ∷ register_fd day_fd none ∷ unbecome ∷ []

  -- `LAT_UNDEFINED` is 91.
  unfoldable pub receive_waiting_loc :
      ⦃f : Float D⦄ → Bool → Input D → State D → State D × List (Effect D)
  unfolding start_daytime
  receive_waiting_loc ⦃f⦄ located (user from (loc_upd up)) s =
      if f.eq up.new.lat (f.literal (pos 91) 1)
      then (
        record s { day_time = day },
        stop ∷ publish (daytime_upd (record { old = pos 0; new = day })) ∷ [],
      )
      else (s, start_daytime)
  receive_waiting_loc ⦃f⦄ located loop_started s = (s, if located then [] else start_daytime)
  receive_waiting_loc ⦃f⦄ located _ s = (s, [])

  -- An event's text is at most 9 bytes long once it is checked, so that it is stored whole.
  abbrev with_event : Conf D → Pair (List ℕ) → Conf D
  with_event c events = record c { day_conf = record c.day_conf { day_events = events } }

  abbrev on_event :
      (List ℕ → Bool)
      → (Pair (List ℕ) → Pair (List ℕ))
      → EvtUpd
      → Conf D
      → State D
      → Conf D × State D × List (Effect D)
  on_event strptime_r stored up c s =
      let (s', es) = reset_daytime s in
      if validate_evt strptime_r up
      then (with_event c (stored c.day_conf.day_events), s', es)
      else (c, s, [])

  -- `none` where `check_daytime` runs out of fuel.
  unfoldable pub receive :
      (List ℕ → Bool)
      → ℕ
      → Sun
      → ℤ
      → Input D
      → Conf D
      → State D
      → Option (Conf D × State D × List (Effect D))
  receive strptime_r fuel sun now (fd_upd fd ptr) c s =
      check_daytime fuel c sun now s >>= λ (s', es). some (c, s', es)
  receive strptime_r fuel sun now (user from (loc_upd up)) c s =
      let (s', es) = reset_daytime s in some (c, s', es)
  receive strptime_r fuel sun now (user from (sunrise_req up)) c s =
      some (on_event strptime_r (λ p. record p { first = up.event }) up c s)
  receive strptime_r fuel sun now (user from (sunset_req up)) c s =
      some (on_event strptime_r (λ p. record p { second = up.event }) up c s)
  receive strptime_r fuel sun now _ c s = some (c, s, [])
