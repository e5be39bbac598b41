-- ===== src/Examples/Sky.antt =====
-- The sun at concrete times.
use clight.Prelude.{
  ℕ, ◌+◌, ◌-◌, ◌*◌, ◌/◌, ◌%◌, ◌≡◌, refl, some, List, [], ◌∷◌, ◌++◌, arith, pos_part, ◌+ℤ◌, ◌-ℤ◌,
  ◌*ℤ◌, ◌≤ℤ◌, ℤ, pos, negsuc,
}
use clight.Commons.{DaytimeConf, Conf, day_fd, settime}
use clight.Utils.MyMath.Sun.{sun_at, Tm, Calendar, SunMath, Sun}
use clight.Examples.Data.{hundredths, conf_with, conf, state}
use clight.Examples.Curves.{libm}
use clight.Modules.Daytime.{check_next_event, get_next_events, alarm, check_daytime}
use clight.Modules.Daytime.Alarm.{
  checked, messages, check_daytime-arms, check_daytime-disarms, IsCurrent,
}
use clight.Modules.Daytime.Days
use clight.Examples.Data.{hundredths}

-- The first days of a year that begins with the epoch.
abbrev whole_days : Tm → ℤ
whole_days tm =
    (tm.tm_yday *ℤ pos 86400) +ℤ ((tm.tm_hour *ℤ pos 3600) +ℤ ((tm.tm_min *ℤ pos 60) +ℤ tm.tm_sec))

abbrev date_of : ℕ → Tm
date_of t = record {
  tm_sec = pos (t % 60);
  tm_min = pos (t / 60 % 60);
  tm_hour = pos (t / 3600 % 24);
  tm_mday = pos (t / 86400 + 1);
  tm_mon = pos 0;
  tm_year = pos 70;
  tm_yday = pos (t / 86400);
}

-- Two digits, a colon, and two digits.
abbrev read_time : List ℕ → Tm → Tm
read_time (a ∷ b ∷ _ ∷ c ∷ d ∷ _) tm = record tm {
  tm_hour = pos ((a - 48) * 10 + (b - 48));
  tm_min = pos ((c - 48) * 10 + (d - 48));
}
read_time _ tm = tm

abbrev first_year : Calendar
first_year = record {
  localtime = λ t. some (date_of (pos_part t));
  mktime = whole_days;
  timegm = whole_days;
  strptime_r = read_time;
}

-- The user has set the sunrise to 05:30 and the sunset to 19:30.
abbrev user_day : DaytimeConf ℤ
user_day = record conf.day_conf {
  day_events = record { first = 48 ∷ 53 ∷ 58 ∷ 51 ∷ 48 ∷ []; second = 49 ∷ 57 ∷ 58 ∷ 51 ∷ 48 ∷ [] };
}

abbrev user_conf : Conf ℤ
user_conf = record conf { day_conf = user_day }

abbrev sun_math : SunMath ℤ
sun_math = record {
  tan = λ x. x;
  atan = λ x. x;
  asin = λ x. x;
  floor = λ x. x;
  fmod = λ x y. x;
  modf = λ x. (pos 0, x);
  to_float = λ x. x;
}

abbrev sun : ℤ → Sun
sun now = sun_at libm sun_math first_year user_day user_day.loc now

-- The evening, when the sunset is over.
abbrev evening : ℤ
evening = pos 80000

sun-Rises_today : Days.Rises user_conf (sun evening) evening (pos 0)
unfolding sun_at ◌-ℤ◌ ◌+ℤ◌ ◌*ℤ◌
sun-Rises_today = record {
  rises = refl;
  sets = refl;
  after_epoch = omega arith;
  yesterday = omega arith;
}

sun-Rises_tomorrow : Days.Rises user_conf (sun evening) evening (pos 0 +ℤ pos 1)
unfolding sun_at ◌-ℤ◌ ◌+ℤ◌ ◌*ℤ◌
sun-Rises_tomorrow = record {
  rises = refl;
  sets = refl;
  after_epoch = omega arith;
  yesterday = omega arith;
}

get_next_events_total_example :
    Days.EndsCurrent user_conf
      (sun evening)
      evening
      (get_next_events 2 user_conf (sun evening) evening (pos 0) state)
unfolding sun_at ◌+ℤ◌ ◌*ℤ◌
get_next_events_total_example =
    Days.get_next_events_total user_conf (sun evening) evening 0 state sun-Rises_today
      sun-Rises_tomorrow (omega arith) (omega arith)

-- At noon; then, with an offset of two hours before the events, 5,000 seconds before the sunset.
abbrev noon : ℤ
noon = pos 45000

noon-IsCurrent : IsCurrent conf noon state
unfolding ◌+ℤ◌
noon-IsCurrent = record {
  duration_nonneg = omega arith;
  ordered = omega arith;
  not_over = omega arith;
}

check_daytime-arms_example :
    (check_daytime 1 conf (sun noon) noon state
      ≡ some (
        checked conf noon state,
        messages conf noon state
            ++ (settime day_fd (alarm conf (checked conf noon state) -ℤ noon) (pos 0) ∷ []),
      ))
    × (pos 2 ≤ℤ (alarm conf (checked conf noon state) -ℤ noon))
unfolding check_next_event ◌+ℤ◌
check_daytime-arms_example = check_daytime-arms conf noon state 0 (sun noon) noon-IsCurrent refl

abbrev early_conf : Conf ℤ
early_conf = conf_with (negsuc 7199)

abbrev dusk : ℤ
dusk = pos 65000

dusk-IsCurrent : IsCurrent early_conf dusk state
unfolding ◌+ℤ◌
dusk-IsCurrent = record {
  duration_nonneg = omega arith;
  ordered = omega arith;
  not_over = omega arith;
}

check_daytime-disarms_example :
    check_daytime 1 early_conf (sun dusk) dusk state
    ≡ some (
      checked early_conf dusk state,
      messages early_conf dusk state ++ (settime day_fd (pos 0) (pos 0) ∷ []),
    )
unfolding check_next_event ◌+ℤ◌ ◌-ℤ◌
check_daytime-disarms_example =
    check_daytime-disarms early_conf dusk state 0 (sun dusk) dusk-IsCurrent (omega arith)
      (omega arith)
