-- ===== src/Modules/Daytime/Alarm.antt =====
-- The next alarm.
use clight.Prelude.{
  ℕ, suc, ◌≡◌, refl, ap, ◌∙◌, inl, inr, false, some, List, [], ◌∷◌, ◌++◌, arith, if◌then◌else◌,
  Bool-cases, ◌+ℤ◌, ◌-ℤ◌, ◌≤ℤ◌, ◌<ℤ◌, ltb_ℤ, leb_ℤ, abs, +ℤ_parts, -ℤ_parts, abs_parts, int_laws, ℤ,
  pos,
}
use clight.Commons.{Conf, State, day_fd, Effect, settime}
use clight.Utils.Timer.{set_timeout}
use clight.Modules.Daytime.{
  event_of, check_next_event, check_state, get_next_events, daytime_messages, temp_message, alarm,
  check_daytime,
}
use clight.Utils.MyMath.Sun.{Sun}

-- The offset of the alarm from an event, as `check_state` computes it.
range_of : ℤ → ℤ → ℤ → ℤ
range_of event soon duration =
    if leb_ℤ (abs (event -ℤ soon)) duration
    then (if ltb_ℤ soon event then pos 0 else duration)
    else pos 0 -ℤ duration

range_ahead :
    (event soon duration : ℤ)
    → pos 0 ≤ℤ duration
    → soon <ℤ (event +ℤ duration)
    → soon <ℤ (event +ℤ range_of event soon duration)
unfolding range_of
range_ahead event soon duration h1 h2 = ground (
  arith,
  -ℤ_parts event soon,
  abs_parts (event -ℤ soon),
  -ℤ_parts (pos 0) duration,
  +ℤ_parts event duration,
  +ℤ_parts event (pos 0),
  +ℤ_parts event (pos 0 -ℤ duration),
)

alarm-check_state :
    {D : Type 0} (c : Conf D) (now : ℤ) (s : State D)
    → let event = event_of s.day_events s.next_event in
      alarm c (check_state c now s)
      ≡ event
        +ℤ event_of c.day_conf.events_os s.next_event
        +ℤ range_of event (now +ℤ pos 1) c.day_conf.event_duration
unfolding check_state range_of
alarm-check_state c now s =
    elim (Bool-cases (
      leb_ℤ (abs (event_of s.day_events s.next_event -ℤ (now +ℤ pos 1)))
        c.day_conf.event_duration)) [ inl inside ↦ rw inside | inr outside ↦ rw outside ]

module _ {D : Type 0} (c : Conf D) (now : ℤ) (s : State D) where
  abbrev soon : ℤ
  soon = now +ℤ pos 1

  -- The state once both checks are made.
  abbrev pub checked : State D
  checked = check_state c now (check_next_event c now s)

  -- The event that comes next.
  abbrev pub next_event_of : ℤ
  next_event_of = (check_next_event c now s).next_event

  -- The two events are stored, in order, and the later one is not past.
  pub record IsCurrent : Type 0 where
    pub duration_nonneg : pos 0 ≤ℤ c.day_conf.event_duration
    pub ordered : s.day_events.first ≤ℤ s.day_events.second
    pub not_over : soon <ℤ (s.day_events.second +ℤ c.day_conf.event_duration)

  -- The event that is chosen is not over.
  next_not_over :
      IsCurrent → soon <ℤ (event_of s.day_events next_event_of +ℤ c.day_conf.event_duration)
  unfolding check_next_event
  next_not_over h =
      elim (Bool-cases (ltb_ℤ soon (s.day_events.first +ℤ c.day_conf.event_duration))) [
        | inl early ↦ rw early (ground arith)
        | inr late ↦ rw late h.not_over
      ]

  day_events_kept : (check_next_event c now s).day_events ≡ s.day_events
  unfolding check_next_event
  day_events_kept = refl

  alarm_eq :
      alarm c checked
      ≡ event_of s.day_events next_event_of
        +ℤ event_of c.day_conf.events_os next_event_of
        +ℤ range_of (event_of s.day_events next_event_of) soon c.day_conf.event_duration
  unfolding check_next_event
  alarm_eq = alarm-check_state c now (check_next_event c now s)

  -- With no offset, the alarm is at least two seconds ahead.
  alarm_ahead :
      IsCurrent
      → event_of c.day_conf.events_os next_event_of ≡ pos 0
      → (now +ℤ pos 2) ≤ℤ alarm c checked
  alarm_ahead h e =
      let ahead =
        range_ahead (event_of s.day_events next_event_of) soon c.day_conf.event_duration
          h.duration_nonneg (next_not_over h) in
      rw (alarm_eq, e) (omega (int_laws, ahead))

  -- The alarm's time while the next event is more than its duration away.
  alarm_outside :
      (soon +ℤ c.day_conf.event_duration) <ℤ event_of s.day_events next_event_of
      → pos 0 ≤ℤ c.day_conf.event_duration
      → alarm c checked
        ≡ event_of s.day_events next_event_of
          +ℤ event_of c.day_conf.events_os next_event_of
          -ℤ c.day_conf.event_duration
  unfolding range_of
  alarm_outside h p =
      let event = event_of s.day_events next_event_of in
      let outside : leb_ℤ (abs (event -ℤ soon)) c.day_conf.event_duration ≡ false = ground (
        arith,
        -ℤ_parts event soon,
        abs_parts (event -ℤ soon),
        +ℤ_parts soon c.day_conf.event_duration,
      ) in
      rw (alarm_eq, outside) (omega int_laws)

  settime_past :
      (t : ℤ) → t ≤ℤ pos 0 → set_timeout {D = D} t (pos 0) day_fd ≡ settime day_fd (pos 0) (pos 0)
  unfolding set_timeout
  settime_past t h = ground arith

  settime_future :
      (t : ℤ) → pos 0 ≤ℤ t → set_timeout {D = D} t (pos 0) day_fd ≡ settime day_fd t (pos 0)
  unfolding set_timeout
  settime_future t h = ground arith

  -- What `check_daytime` sends, before it sets the timer.
  abbrev pub messages : List (Effect D)
  messages = daytime_messages s checked ++ temp_message c checked

  module _ (fuel : ℕ) (sun : Sun) where
    current_events : IsCurrent → get_next_events (suc fuel) c sun now (pos 0) s ≡ some (checked, [])
    unfolding get_next_events
    current_events h =
        let current : leb_ℤ (s.day_events.second +ℤ c.day_conf.event_duration) soon ≡ false =
          ground (arith, h.not_over) in
        rw current

    current_daytime :
        IsCurrent
        → check_daytime (suc fuel) c sun now s
          ≡ some (checked, messages ++ (set_timeout (alarm c checked -ℤ now) (pos 0) day_fd ∷ []))
    unfolding check_daytime
    current_daytime h = rw (current_events h)

    -- While the stored events are in order and the sunset is not over, so that nothing is computed anew,
    -- the duration of events is not negative, and the next event has no offset: the check returns on any
    -- fuel from 1 on, sends its messages, and arms the timer for a time at least two seconds ahead.
    pub check_daytime-arms :
        IsCurrent
        → event_of c.day_conf.events_os next_event_of ≡ pos 0
        → (check_daytime (suc fuel) c sun now s
            ≡ some (checked, messages ++ (settime day_fd (alarm c checked -ℤ now) (pos 0) ∷ [])))
          × (pos 2 ≤ℤ (alarm c checked -ℤ now))
    check_daytime-arms h e =
        let ahead : pos 2 ≤ℤ (alarm c checked -ℤ now) = omega (int_laws, alarm_ahead h e) in
        (
          current_daytime h
              ∙ ap (λ x. some (checked, messages ++ (x ∷ [])))
                  (settime_future (alarm c checked -ℤ now) (omega (arith, ahead))),
          ahead,
        )

    -- While the stored events are in order and the sunset is not over, so that nothing is computed anew,
    -- and the duration of events is not negative: a check that is made when the alarm of the next event,
    -- with its offset, is due or past, while the event itself is more than its duration away, disarms the
    -- timer, so that it does not fire again.
    pub check_daytime-disarms :
        IsCurrent
        → (soon +ℤ c.day_conf.event_duration) <ℤ event_of s.day_events next_event_of
        → (event_of s.day_events next_event_of
            +ℤ event_of c.day_conf.events_os next_event_of
            -ℤ c.day_conf.event_duration)
          ≤ℤ now
        → check_daytime (suc fuel) c sun now s
          ≡ some (checked, messages ++ (settime day_fd (pos 0) (pos 0) ∷ []))
    check_daytime-disarms h away due =
        let out = alarm_outside away h.duration_nonneg in
        let late : (alarm c checked -ℤ now) ≤ℤ pos 0 = rw out (omega (int_laws, due)) in
        current_daytime h
        ∙ ap (λ x. some (checked, messages ++ (x ∷ [])))
            (settime_past (alarm c checked -ℤ now) late)
