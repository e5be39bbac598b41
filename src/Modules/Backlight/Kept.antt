-- ===== src/Modules/Backlight/Kept.antt =====
-- The parts of BACKLIGHT's handlers return, and keep the stack, the registration of the timer and the curves
-- right.
use clight.Prelude.{
  zero, suc, ◌<◌, ◌≡◌, refl, ◌⊎◌, inl, inr, Bool, true, false, not, ◌&&◌, Option, none, some, List,
  [], arith, if◌then◌else◌, Bool-cases, length, leb_ℤ, ℤ, pos, negsuc,
}
use clight.Public.{day, size_states, InPair, at_total, put_total, Pair, TimeoutUpd}
use clight.Commons.{DayTimeouts, Conf, State, bl_fd, Effect, Libmodule}
use clight.Utils.Pause.{timeout}
use clight.Utils.Timer.{set_timeout, reset_timer}
use clight.Modules.Backlight.{
  BlResult, at_daytime, put_daytime, during_event, get_current_timeout, pause_if, reset_or_pause,
  upower_callback, with_bl_timeout, is_current, and_conf, set_bl_timeout,
  interface_timeout_callback, time_callback, BlModule,
}
use clight.Modules.Backlight.Synced.{
  act, Steady, SteadyAfter, pause_if-Steady, append-Steady, act-reset_timer,
}

-- The default curves have points, and no monitor has its own.
abbrev pub HaveDefaults : {D : Type 0} → Conf D → Type 0
HaveDefaults c =
    (0 < length c.sens_conf.default_curve.first.points)
    × (0 < length c.sens_conf.default_curve.second.points)
    × (c.sens_conf.specific_curves ≡ [])

-- The power supply and the time of day are known.
abbrev pub IsKnown : {D : Type 0} → State D → Type 0
IsKnown s = InPair s.ac_state × InPair s.day_time

at_daytime_total : (row : DayTimeouts) (d : ℤ) → InPair d → (t : ℤ) × (at_daytime row d ≡ some t)
at_daytime_total row d (inl e) = (row.by_day, rw e)
at_daytime_total row d (inr e) = (row.by_night, rw e)

put_daytime_total :
    (row : DayTimeouts) (d t : ℤ)
    → (leb_ℤ day d && leb_ℤ d size_states) ≡ true
    → (row' : DayTimeouts) × (put_daytime row d t ≡ some row')
put_daytime_total row (pos zero) t h = (record row { by_day = t }, refl)
put_daytime_total row (pos (suc zero)) t h = (record row { by_night = t }, refl)
put_daytime_total row (pos (suc (suc zero))) t h = (record row { by_event = t }, refl)
put_daytime_total row (pos (suc (suc (suc n)))) t h = absurd (ground (arith, h))
put_daytime_total row (negsuc n) t h = absurd (ground (arith, h))

module _ {D : Type 0} where
  pub get_current_timeout_total :
      (c : Conf D) (s : State D) → IsKnown s → (t : ℤ) × (get_current_timeout c s ≡ some t)
  unfolding get_current_timeout
  get_current_timeout_total c s (a, d) =
      let (row, e) = at_total c.bl_conf.timeout s.ac_state a in
      let (t, e') = at_daytime_total row s.day_time d in
      elim (Bool-cases s.in_event) [
        | inl y ↦ (row.by_event, rw (e, y))
        | inr n ↦ (t, rw (e, n, e'))
      ]

  pub with_bl_timeout_total :
      (up : TimeoutUpd) (c : Conf D)
      → InPair up.state
      → (leb_ℤ day up.daytime && leb_ℤ up.daytime size_states) ≡ true
      → (ts : Pair DayTimeouts) × (with_bl_timeout up c
          ≡ some (record c { bl_conf = record c.bl_conf { timeout = ts } }))
  with_bl_timeout_total up c a d =
      let (row, e) = at_total c.bl_conf.timeout up.state a in
      let (row', e') = put_daytime_total row up.daytime up.new d in
      let (ts, e'') = put_total c.bl_conf.timeout up.state row' a in (ts, rw (e, e', e''))

module _ {D S : Type 0} (lib : Libmodule S) (base : S) (w : S × Bool) where
  abbrev pub Kept : Option (BlResult D) → Type 0
  Kept none = ⊥
  Kept (some (m, c, s, es)) = SteadyAfter lib base w (m, es) × HaveDefaults c

  pub reset_or_pause-Kept :
      (left old : ℤ) (reset : Bool) (c : Conf D) (s : State D) (m : BlModule D)
      → IsKnown s
      → HaveDefaults c
      → Steady lib base m.paused_state w
      → Kept (and_conf c s (reset_or_pause left old reset c s m))
  unfolding reset_or_pause
  reset_or_pause-Kept left old reset c s m k g h =
      let (t, e) = get_current_timeout_total c s k in
      let off = leb_ℤ t (pos 0) in
      let (m', es) = pause_if off timeout m in
      let more : List (Effect D) = if not off && reset then reset_timer bl_fd left old t else [] in
      let still : (v : S × Bool) → act lib more v ≡ v = λ v. elim (Bool-cases (not off && reset)) [
        | inl y ↦ rw y (act-reset_timer lib D left old t v)
        | inr n ↦ rw n refl
      ] in
      rw e
        (append-Steady lib base m' es more w still (pause_if-Steady lib base off timeout m w h), g)

  pub upower_callback-Kept :
      (c : Conf D) (s : State D) (m : BlModule D)
      → IsKnown s
      → HaveDefaults c
      → Steady lib base m.paused_state w
      → Kept (upower_callback c s m)
  unfolding upower_callback set_timeout
  upower_callback-Kept c s m k g h = let (t, e) = get_current_timeout_total c s k in rw e (h, g)

  pub time_callback-Kept :
      (left old_val : ℤ) (is_event : Bool) (c : Conf D) (s : State D) (m : BlModule D)
      → IsKnown s
      → (is_event ≡ true) ⊎ InPair old_val
      → HaveDefaults c
      → Steady lib base m.paused_state w
      → Kept (time_callback left old_val is_event c s m)
  unfolding time_callback
  time_callback-Kept left old_val is_event c s m k o g h =
      let (row, e) = at_total c.bl_conf.timeout s.ac_state k.0 in
      let (old, e') = old_timeout row is_event o in
      rw (e, e') (reset_or_pause-Kept left old true c s m k g h)
    where
      old_timeout :
          (row : DayTimeouts) (is_event : Bool)
          → (is_event ≡ true) ⊎ InPair old_val
          → (t : ℤ) × (at_daytime row
                (if is_event then (if s.in_event then s.day_time else during_event) else old_val)
              ≡ some t)
      old_timeout row true o =
          let (t, e) = at_daytime_total row s.day_time k.1 in
          elim (Bool-cases s.in_event) [ inl y ↦ (t, rw (y, e)) | inr n ↦ (row.by_event, rw n) ]
      old_timeout row false (inl e) = absurd (ground (arith, e))
      old_timeout row false (inr p) = at_daytime_total row old_val p

  pub interface_timeout_callback-Kept :
      (left : ℤ) (up : TimeoutUpd) (c : Conf D) (s : State D) (m : BlModule D)
      → IsKnown s
      → InPair up.state
      → HaveDefaults c
      → Steady lib base m.paused_state w
      → Kept (interface_timeout_callback left up c s m)
  unfolding interface_timeout_callback set_bl_timeout
  interface_timeout_callback-Kept left up c s m k a g h =
      elim (Bool-cases (leb_ℤ day up.daytime && leb_ℤ up.daytime size_states)) [
        | inr n ↦ rw (interface_timeout_callback, n) (h, g)
        | inl y ↦
            let (old, e) = get_current_timeout_total c s k in
            let (ts, e') = with_bl_timeout_total up c a y in
            let c' = record c { bl_conf = record c.bl_conf { timeout = ts } } in
            rw (interface_timeout_callback, y, set_bl_timeout, e, e')
              (elim (Bool-cases (is_current up s)) [
                | inl now ↦ rw now (reset_or_pause-Kept left old true c' s m k g h)
                | inr later ↦ rw later (h, g)
              ])
      ]
