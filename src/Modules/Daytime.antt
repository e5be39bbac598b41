-- ===== src/Modules/Daytime.antt =====
-- modules/daytime.c: sunrise, sunset, and whether it is day.
pub mod Alarm
pub mod Days
pub mod Handlers
use clight.Prelude.{
  ℕ, zero, suc, true, false, ◌&&◌, ◌||◌, Option, none, some, List, [], ◌∷◌, ◌++◌, if◌then◌else◌,
  eqb_bool, ◌>>=◌, ◌+ℤ◌, ◌-ℤ◌, minus_one, ltb_ℤ, leb_ℤ, ◌==ℤ◌, abs, ℤ, pos,
}
use clight.Public.{
  day, night, sunrise, sunset, Pair, daytime_upd, in_event_upd, sunrise_upd, sunset_upd, temp_req,
  next_dayevt_upd,
}
use clight.Commons.{Conf, State, day_fd, Effect, publish}
use clight.Utils.Timer.{set_timeout}
use clight.Utils.MyMath.Sun.{Sun}

-- Which of the two events is next is 0 or 1 once it is computed.
abbrev pub event_of : Pair ℤ → ℤ → ℤ
event_of p i = if i ==ℤ sunrise then p.first else p.second

-- The sunrise of the day, or of the day before if it comes after the sunset.
abbrev sunrise_before : Sun → ℤ → ℤ → ℤ
sunrise_before sun dayshift set =
    let (ok, t) = sun.sunrise_at dayshift in
    if ok then (if ltb_ℤ set t then (sun.sunrise_at (dayshift -ℤ pos 1)).1 else t) else minus_one

module _ {D : Type 0} where
  unfoldable pub check_next_event : Conf D → ℤ → State D → State D
  check_next_event c now s =
      let soon = now +ℤ pos 1 in
      record s {
        day_time =
            if ltb_ℤ s.day_events.second soon || ltb_ℤ soon s.day_events.first then night else day;
        next_event =
            if ltb_ℤ soon (s.day_events.first +ℤ c.day_conf.event_duration)
            then sunrise
            else sunset;
      }

  unfoldable pub check_state : Conf D → ℤ → State D → State D
  check_state c now s =
      let soon = now +ℤ pos 1 in
      let event = event_of s.day_events s.next_event in
      let duration = c.day_conf.event_duration in
      if leb_ℤ (abs (event -ℤ soon)) duration
      then record s {
        event_time_range = if ltb_ℤ soon event then pos 0 else duration;
        in_event = true;
      }
      else record s { event_time_range = pos 0 -ℤ duration; in_event = false }

  -- The day's events are stored and announced; where neither could be computed, it is day for 12
  -- hours.
  unfoldable pub store_events : Sun → ℤ → ℤ → ℤ → State D → State D × List (Effect D)
  store_events sun now dayshift set s =
      let rise = sunrise_before sun dayshift set in
      let set' = if (rise ==ℤ minus_one) && (set ==ℤ minus_one) then now +ℤ pos 43200 else set in
      (
        record s { day_events = record { first = rise; second = set' } },
        publish (sunrise_upd (record { old = s.day_events.first; new = rise; event = [] }))
            ∷ publish (sunset_upd (record { old = s.day_events.second; new = set'; event = [] }))
            ∷ [],
      )

  -- The end of `get_next_events`.
  abbrev pub with_checks :
      Conf D → ℤ → State D × List (Effect D) → Option (State D × List (Effect D))
  with_checks c now (s, es) = some (check_state c now (check_next_event c now s), es)

  -- `get_next_events` calls itself for the next day, so it takes fuel: the number of days that it
  -- may look at.
  unfoldable pub get_next_events :
      ℕ → Conf D → Sun → ℤ → ℤ → State D → Option (State D × List (Effect D))
  unfolding store_events
  get_next_events zero c sun now dayshift s = none
  get_next_events (suc fuel) c sun now dayshift s =
      let duration = c.day_conf.event_duration in
      let tomorrow = get_next_events fuel c sun now (dayshift +ℤ pos 1) s in
      let (ok, t) = sun.sunset_at dayshift in
      if leb_ℤ (s.day_events.second +ℤ duration) (now +ℤ pos 1)
      then (if ok
          then (if leb_ℤ (t +ℤ duration) (now +ℤ pos 1)
              then tomorrow
              else with_checks c now (store_events sun now dayshift t s))
          else with_checks c now (store_events sun now dayshift minus_one s))
      else with_checks c now (s, [])

  -- `state.in_event` as an `int`.
  abbrev pub in_event_value : State D → ℤ
  in_event_value s = if s.in_event then pos 1 else pos 0

  -- The messages about what has changed.
  abbrev pub daytime_messages : State D → State D → List (Effect D)
  daytime_messages s s' =
      (if s.day_time ==ℤ s'.day_time
        then []
        else publish (daytime_upd (record { old = s.day_time; new = s'.day_time })) ∷ [])
      ++ ((if s.next_event ==ℤ s'.next_event
            then []
            else publish (next_dayevt_upd (record { old = s.next_event; new = s'.next_event }))
              ∷ [])
          ++ (if eqb_bool s.in_event s'.in_event
              then []
              else publish
                  (in_event_upd (record { old = in_event_value s; new = in_event_value s' }))
                ∷ []))

  -- The request that keeps the gamma right, as `init` prepares it. The receiver's check fills in
  -- `smooth` and `daytime` where it finds -1; as it does so in place, later requests carry what it has
  -- filled in, which GAMMA does not read in a request of this module.
  abbrev pub temp_message : Conf D → State D → List (Effect D)
  temp_message c s =
      if c.gamma_conf.disabled
      then []
      else publish (
          temp_req (record {
            daytime = minus_one;
            old = pos 0;
            new = event_of c.gamma_conf.temp s.day_time;
            smooth = minus_one;
            step = pos 0;
            timeout = pos 0;
          }))
        ∷ []

  -- When the next alarm is due.
  abbrev pub alarm : Conf D → State D → ℤ
  alarm c s =
      event_of s.day_events s.next_event
      +ℤ event_of c.day_conf.events_os s.next_event
      +ℤ s.event_time_range

  unfoldable pub check_daytime : ℕ → Conf D → Sun → ℤ → State D → Option (State D × List (Effect D))
  unfolding set_timeout
  check_daytime fuel c sun now s = do
    (s', es) ← get_next_events fuel c sun now (pos 0) s
    some (
      s',
      es
          ++ ((daytime_messages s s' ++ temp_message c s')
              ++ (set_timeout (alarm c s' -ℤ now) (pos 0) day_fd ∷ [])),
    )

  -- The next check computes the events anew, and comes at once.
  unfoldable pub reset_daytime : State D → State D × List (Effect D)
  unfolding set_timeout
  reset_daytime s = (
    record s { day_events = record { first = s.day_events.first; second = pos 0 } },
    set_timeout (pos 0) (pos 1) day_fd ∷ [],
  )
