-- ===== src/Modules/Daytime/Days.antt =====
-- The search for the day whose events are not over.
use clight.Prelude.{
  ℕ, suc, ◌≡◌, ◌⊎◌, inl, inr, true, Option, none, some, List, arith, Bool-cases, ◌+ℤ◌, ◌-ℤ◌, ◌≤ℤ◌,
  ◌<ℤ◌, leb_ℤ, ℤ, pos,
}
use clight.Commons.{Conf, State, Effect}
use clight.Modules.Daytime.{check_next_event, check_state, store_events, get_next_events}
use clight.Utils.MyMath.Sun.{Sun}

module _ {D : Type 0} (c : Conf D) (sun : Sun) (now : ℤ) where
  abbrev soon : ℤ
  soon = now +ℤ pos 1

  abbrev rise : ℤ → ℤ
  rise d = (sun.sunrise_at d).1

  abbrev set : ℤ → ℤ
  set d = (sun.sunset_at d).1

  -- The sun rises and sets on the day, its sunset is a time from 1970 on, and the sunrise of the day
  -- before comes no later.
  pub record Rises (d : ℤ) : Type 0 where
    pub rises : (sun.sunrise_at d).0 ≡ true
    pub sets : (sun.sunset_at d).0 ≡ true
    pub after_epoch : pos 0 ≤ℤ set d
    pub yesterday : rise (d -ℤ pos 1) ≤ℤ set d

  -- The stored events are in order, and the sunset is not over.
  abbrev pub AreCurrent : State D → Type 0
  AreCurrent s =
      (s.day_events.first ≤ℤ s.day_events.second)
      × (soon <ℤ (s.day_events.second +ℤ c.day_conf.event_duration))

  -- It returns, and the events are then current.
  abbrev pub EndsCurrent : Option (State D × List (Effect D)) → Type 0
  EndsCurrent none = ⊥
  EndsCurrent (some (s, es)) = AreCurrent s

  checks-AreCurrent :
      (s : State D) → AreCurrent s → AreCurrent (check_state c now (check_next_event c now s))
  unfolding check_state check_next_event
  checks-AreCurrent s h = ground arith

  store-AreCurrent :
      (d : ℤ) (s : State D)
      → Rises d
      → soon <ℤ (set d +ℤ c.day_conf.event_duration)
      → AreCurrent (store_events sun now d (set d) s).0
  unfolding store_events
  store-AreCurrent d s r h = ground (arith, r.rises, r.after_epoch, r.yesterday)

  -- One day: the events are current, or that day's sunset is over.
  day-EndsCurrent :
      (fuel : ℕ) (d : ℤ) (s : State D)
      → Rises d
      → s.day_events.first ≤ℤ s.day_events.second
      → (soon <ℤ (set d +ℤ c.day_conf.event_duration))
        ⊎ EndsCurrent (get_next_events fuel c sun now (d +ℤ pos 1) s)
      → EndsCurrent (get_next_events (suc fuel) c sun now d s)
  unfolding get_next_events
  day-EndsCurrent fuel d s r o h =
      elim (Bool-cases (leb_ℤ (s.day_events.second +ℤ c.day_conf.event_duration) soon)) [
        | inr current ↦ rw current (checks-AreCurrent s (o, ground arith))
        | inl over ↦ elim (Bool-cases (leb_ℤ (set d +ℤ c.day_conf.event_duration) soon)) [
          | inr today ↦
              rw (over, r.sets, today)
                (checks-AreCurrent (store_events sun now d (set d) s).0
                  (store-AreCurrent d s r (ground arith)))
          | inl past ↦
              rw (over, r.sets, past)
                (elim h [ inl not_past ↦ absurd (ground arith) | inr next ↦ next ])
        ]
      ]

  -- Where the sun rises and sets today and tomorrow, with either sunset from 1970 on and no earlier than
  -- the sunrise of the day before it, the stored events are in order and tomorrow's sunset is not over,
  -- two days are enough to look at: the search returns, with events that are in order and whose sunset
  -- is not over.
  pub get_next_events_total :
      (fuel : ℕ) (s : State D)
      → Rises (pos 0)
      → Rises (pos 0 +ℤ pos 1)
      → s.day_events.first ≤ℤ s.day_events.second
      → soon <ℤ (set (pos 0 +ℤ pos 1) +ℤ c.day_conf.event_duration)
      → EndsCurrent (get_next_events (suc (suc fuel)) c sun now (pos 0) s)
  get_next_events_total fuel s today tomorrow o h =
      day-EndsCurrent (suc fuel) (pos 0) s today o
        (inr (day-EndsCurrent fuel (pos 0 +ℤ pos 1) s tomorrow o (inl h)))
