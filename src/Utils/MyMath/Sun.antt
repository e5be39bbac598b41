-- ===== src/Utils/MyMath/Sun.antt =====
-- utils/my_math.c: when the sun rises and sets. The calendar's functions are those of the C library.
use clight.Prelude.{
  ℕ, Bool, not, Option, none, some, List, ◌==◌, if◌then◌else◌, length, ◌+ℤ◌, minus_one, ◌==ℤ◌, ℤ,
  pos, negsuc,
}
use clight.Public.{sunrise, sunset, Loc}
use clight.Commons.{Float, DaytimeConf}
use clight.Utils.MyMath.{of_int, deg_to_rad, rad_to_deg, Libm}

-- `struct tm`, as far as it is a date and a time.
pub record Tm : Type 0 where
  pub tm_sec : ℤ
  pub tm_min : ℤ
  pub tm_hour : ℤ
  pub tm_mday : ℤ
  pub tm_mon : ℤ
  pub tm_year : ℤ
  pub tm_yday : ℤ

-- `localtime`, `none` for a null pointer; `mktime` and `timegm`, which also put the fields in their
-- ranges; and what `strptime` with "%R" leaves.
pub record Calendar : Type 0 where
  pub localtime : ℤ → Option Tm
  pub mktime : Tm → ℤ
  pub timegm : Tm → ℤ
  pub strptime_r : List ℕ → Tm → Tm

-- More of the C library: `modf` gives the fraction and the integral part; `to_float` is the conversion
-- to `float`, which each `float` variable makes.
pub record SunMath (D : Type 0) : Type 0 where
  pub tan : D → D
  pub atan : D → D
  pub asin : D → D
  pub floor : D → D
  pub fmod : D → D → D
  pub modf : D → D × D
  pub to_float : D → D

-- `calculate_sunrise` and `calculate_sunset` by the shift in days: whether they succeed, and the time that
-- they store, which they do in either case.
pub record Sun : Type 0 where
  pub sunrise_at : ℤ → Bool × ℤ
  pub sunset_at : ℤ → Bool × ℤ

-- A day is added to the fields of the date, and the seconds are dropped.
abbrev pub shifted : ℤ → Tm → Tm
shifted dayshift tm = record tm {
  tm_yday = tm.tm_yday +ℤ dayshift;
  tm_mday = tm.tm_mday +ℤ dayshift;
  tm_sec = pos 0;
}

module _ {D : Type 0} ⦃f : Float D⦄ (libm : Libm D) (m : SunMath D) where
  unfoldable pub to_hours : D → D
  to_hours rad = m.to_float (f.div rad (of_int (pos 15)))

  abbrev sin_deg : D → D
  sin_deg x = libm.sin (deg_to_rad libm x)

  -- A step of the calculation: the approximate time `t`, in days.
  abbrev approximate_time : ℤ → D → ℤ → D
  approximate_time event lng_hour yday =
      let hour = if event ==ℤ sunrise then of_int (pos 6) else of_int (pos 18) in
      m.to_float (f.add (of_int yday) (f.div (f.sub hour lng_hour) (of_int (pos 24))))

  -- `L`, the sun's true longitude.
  abbrev true_longitude : D → D
  true_longitude t =
      let anomaly =
        m.to_float (f.sub (f.mul (f.literal (pos 9856) 10000) t) (f.literal (pos 3289) 1000)) in
      m.to_float (
        m.fmod
          (f.add
            (f.add (f.add anomaly (f.mul (f.literal (pos 1916) 1000) (sin_deg anomaly))) (
              f.mul (f.literal (pos 2) 100)
                (libm.sin (f.mul (of_int (pos 2)) (deg_to_rad libm anomaly)))))
            (f.literal (pos 282634) 1000))
          (of_int (pos 360)))

  abbrev quadrant : D → D
  quadrant x =
      m.to_float (f.mul (m.floor (m.to_float (f.div x (of_int (pos 90))))) (of_int (pos 90)))

  -- `RA`, the right ascension in hours, in the quadrant of `L`.
  abbrev right_ascension : D → D
  right_ascension l =
      let tangent = m.tan (deg_to_rad libm l) in
      let ra = m.to_float (
        m.fmod (rad_to_deg libm (m.atan (f.mul (f.literal (pos 91764) 100000) tangent)))
          (of_int (pos 360))) in
      to_hours (m.to_float (f.add ra (m.to_float (f.sub (quadrant l) (quadrant ra)))))

  -- `cosH`, by the latitude and the longitude of the sun. `ZENITH` is -0.83.
  abbrev cos_hour_angle : D → D → D
  cos_hour_angle lat l =
      let sin_dec = m.to_float (f.mul (f.literal (pos 39782) 100000) (sin_deg l)) in
      let cos_dec = m.to_float (libm.cos (m.asin sin_dec)) in
      m.to_float (
        f.sub (sin_deg (f.literal (negsuc 82) 100))
          (f.div (f.mul sin_dec (sin_deg lat)) (f.mul cos_dec (libm.cos (deg_to_rad libm lat)))))

  -- `UT`, the time of the event in hours.
  abbrev universal_time : ℤ → D → D → D → D → D
  universal_time event lng_hour t l cos_h =
      let arc = rad_to_deg libm (libm.acos cos_h) in
      let h =
        to_hours (m.to_float (if event ==ℤ sunrise then f.sub (of_int (pos 360)) arc else arc)) in
      let full_day = of_int (pos 24) in
      let time = m.to_float (
        f.sub
          (f.sub (m.to_float (f.add h (right_ascension l))) (f.mul (f.literal (pos 6571) 100000) t))
          (f.literal (pos 6622) 1000)) in
      m.to_float
        (m.fmod (f.add full_day (m.fmod (m.to_float (f.sub time lng_hour)) full_day)) full_day)

  abbrev at_universal_time : D → Tm → Tm
  at_universal_time ut tm =
      let (fraction, hours) = m.modf ut in
      record tm {
        tm_hour = f.truncate hours;
        tm_min = f.truncate (f.mul fraction (of_int (pos 60)));
      }

  -- The result is the function's value, and `*tt`; `now` is what `time` gives. An event that the user has
  -- set is not calculated.
  unfoldable pub calculate_sunrise_sunset : Calendar → DaytimeConf D → D → D → ℤ → ℤ → ℤ → ℤ × ℤ
  unfolding to_hours
  calculate_sunrise_sunset cal c lat lng now event dayshift = elim (cal.localtime now) [
    | none ↦ (minus_one, now)
    | some date ↦
        let tm = shifted dayshift date in
        let set_by_user = if event ==ℤ sunrise then c.day_events.first else c.day_events.second in
        let lng_hour = to_hours lng in
        let t = approximate_time event lng_hour tm.tm_yday in
        let l = true_longitude t in
        let cos_h = cos_hour_angle lat l in
        let tt = cal.timegm (at_universal_time (universal_time event lng_hour t l cos_h) tm) in
        let never =
          if event ==ℤ sunrise
          then f.lt (of_int (pos 1)) cos_h
          else f.lt cos_h (of_int minus_one) in
        if not (length set_by_user == 0)
        then (pos 0, cal.mktime (cal.strptime_r set_by_user tm))
        else if never
        then (negsuc 1, now)
        else (if tt ==ℤ minus_one then minus_one else pos 0, tt)
  ]

  abbrev succeeded : ℤ × ℤ → Bool × ℤ
  succeeded r = (r.0 ==ℤ pos 0, r.1)

  -- `calculate_sunrise` and `calculate_sunset` at a place, whose coordinates they take as `float`.
  unfoldable pub sun_at : Calendar → DaytimeConf D → Loc D → ℤ → Sun
  unfolding calculate_sunrise_sunset
  sun_at cal c loc now =
      let calculated = λ (event dayshift : ℤ). succeeded (
        calculate_sunrise_sunset cal c (m.to_float loc.lat) (m.to_float loc.lon) now event
          dayshift) in
      record { sunrise_at = calculated sunrise; sunset_at = calculated sunset }
