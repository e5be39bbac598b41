-- ===== src/Modules/Backlight.antt =====
-- modules/backlight.c: the screen's backlight: its pauses, its timer and its curves. libmodule's maps are lists
-- of entries in the order of their iterators, and their operations are parameters. `fit` is `polynomialfit`,
-- which calls GSL, on a curve.
pub mod Levels
pub mod Signals
pub mod Handlers
pub mod Overrides
pub mod Synced
pub mod Kept
pub mod Calls
pub mod Requests
pub mod Runs
pub mod Start
pub mod Bounds
pub mod Stored
pub mod Outcome
use clight.Prelude.{
  ℕ, zero, suc, Bool, true, false, not, ◌&&◌, ◌||◌, Option, none, some, List, [], ◌∷◌, ◌++◌,
  if◌then◌else◌, ◌>>=◌, ltb_ℤ, leb_ℤ, ◌==ℤ◌, ℤ, pos,
}
use clight.Public.{day, size_states, at, put, Pair, TimeoutUpd, no_autocalib_upd}
use clight.Commons.{
  copy_points, Curve, DayTimeouts, Conf, State, bl_fd, paused, Effect, publish, become, unbecome,
  register_fd, deregister_fd,
}
use clight.Utils.Pause.{mod_check_pause, ModPause, autocalib, timeout}
use clight.Utils.Timer.{set_timeout, reset_timer}
use clight.Settings.Read.{CurveMap}

-- `paused_state`, the set of what has started, the monitors' levels by their paths, and the monitor whose
-- level is announced.
pub record BlModule (D : Type 0) : Type 0 where
  pub paused_state : ℕ
  pub started : ℕ
  pub bls : List (List ℕ × D)
  pub backlight_interface : Option (List ℕ)

-- libmodule's maps, which are not under src/: `map_get` on the specific curves, and `map_put` and `map_remove`
-- on the levels.
pub record BlMaps (D : Type 0) : Type 0 where
  pub get_curve : List ℕ → CurveMap D → Option (Pair (Curve D))
  pub put_level : List ℕ → D → List (List ℕ × D) → List (List ℕ × D)
  pub remove_level : List ℕ → List (List ℕ × D) → List (List ℕ × D)

-- What the outside answers while an event is handled: what `get_timeout_sec` returns, the intensities of a
-- capture, whether the call that sets all levels succeeds, whether there is a sensor, and the monitors.
pub record BlReplies (D : Type 0) : Type 0 where
  pub time_left : ℤ
  pub intensities : Option (List D)
  pub ok : Bool
  pub available : Bool
  pub levels : List (List ℕ × D)

abbrev pub BlResult : Type 0 → Type 0
BlResult D = BlModule D × Conf D × State D × List (Effect D)

-- An element of a row of `timeout`.
abbrev pub at_daytime : DayTimeouts → ℤ → Option ℤ
at_daytime row (pos zero) = some row.by_day
at_daytime row (pos (suc zero)) = some row.by_night
at_daytime row (pos (suc (suc zero))) = some row.by_event
at_daytime row _ = none

abbrev pub put_daytime : DayTimeouts → ℤ → ℤ → Option DayTimeouts
put_daytime row (pos zero) t = some (record row { by_day = t })
put_daytime row (pos (suc zero)) t = some (record row { by_night = t })
put_daytime row (pos (suc (suc zero))) t = some (record row { by_event = t })
put_daytime row _ t = none

-- `IN_EVENT`.
abbrev pub during_event : ℤ
during_event = pos 2

module _ {D : Type 0} where
  unfoldable pub get_current_timeout : Conf D → State D → Option ℤ
  get_current_timeout c s = do
    row ← at c.bl_conf.timeout s.ac_state
    at_daytime row (if s.in_event then during_event else s.day_time)

  unfoldable pub pause_mod : ModPause → BlModule D → BlModule D × List (Effect D)
  pause_mod reason m =
      let (p, woken) = mod_check_pause true m.paused_state reason in
      (
        record m { paused_state = p },
        if woken then become paused ∷ deregister_fd bl_fd ∷ [] else [],
      )

  unfoldable pub resume_mod : ModPause → BlModule D → BlModule D × List (Effect D)
  resume_mod reason m =
      let (p, woken) = mod_check_pause false m.paused_state reason in
      (record m { paused_state = p }, if woken then unbecome ∷ register_fd bl_fd none ∷ [] else [])

  -- One of the two, as the test says.
  abbrev pub pause_if : Bool → ModPause → BlModule D → BlModule D × List (Effect D)
  pause_if pause reason m =
      let stopped = pause_mod reason m in
      let going = resume_mod reason m in if pause then stopped else going

  unfoldable pub reset_or_pause :
      ℤ → ℤ → Bool → Conf D → State D → BlModule D → Option (BlModule D × List (Effect D))
  reset_or_pause fd_timeout old_timeout reset c s m = do
    new_timeout ← get_current_timeout c s
    let off = leb_ℤ new_timeout (pos 0)
    let (m', es) = pause_if off timeout m
    some (
      m',
      es ++ (if not off && reset then reset_timer bl_fd fd_timeout old_timeout new_timeout else []),
    )

  unfoldable pub upower_callback : Conf D → State D → BlModule D → Option (BlResult D)
  upower_callback c s m = do
    t ← get_current_timeout c s
    some (m, c, s, set_timeout (pos 0) (if ltb_ℤ (pos 0) t then pos 1 else pos 0) bl_fd ∷ [])

  unfoldable pub interface_autocalib_callback : Bool → Conf D → State D → BlModule D → BlResult D
  interface_autocalib_callback new_val c s m =
      let (m', es) = pause_if new_val autocalib m in
      (
        m',
        record c { bl_conf = record c.bl_conf { no_auto_calib = new_val } },
        s,
        es ++ (publish (no_autocalib_upd (record { new = new_val })) ∷ []),
      )

  -- Without points, the old ones are fitted.
  unfoldable pub interface_curve_callback :
      (Curve D → Curve D) → Option (List D) → ℤ → ℤ → Conf D → Option (Conf D)
  unfolding copy_points
  interface_curve_callback fit regr_points num_points ac c = do
    old ← at c.sens_conf.default_curve ac
    points ← elim regr_points [ none ↦ some old.points | some new ↦ copy_points num_points new ]
    curves ← put c.sens_conf.default_curve ac (fit (record old { points = points }))
    some (record c { sens_conf = record c.sens_conf { default_curve = curves } })

  -- The timeout of a request is stored for its power supply and its time.
  abbrev pub with_bl_timeout : TimeoutUpd → Conf D → Option (Conf D)
  with_bl_timeout up c = do
    row ← at c.bl_conf.timeout up.state
    row' ← put_daytime row up.daytime up.new
    ts ← put c.bl_conf.timeout up.state row'
    some (record c { bl_conf = record c.bl_conf { timeout = ts } })

  -- Is the timeout of a request the current one?
  abbrev pub is_current : TimeoutUpd → State D → Bool
  is_current up s =
      (up.state ==ℤ s.ac_state)
      && ((up.daytime ==ℤ s.day_time) || (s.in_event && (up.daytime ==ℤ during_event)))

  abbrev pub and_conf :
      Conf D → State D → Option (BlModule D × List (Effect D)) → Option (BlResult D)
  and_conf c s o = o >>= λ (m, es). some (m, c, s, es)

  -- The request has been checked.
  unfoldable pub set_bl_timeout :
      ℤ → TimeoutUpd → Conf D → State D → BlModule D → Option (BlResult D)
  set_bl_timeout fd_timeout up c s m = do
    old ← get_current_timeout c s
    c' ← with_bl_timeout up c
    (if is_current up s
        then and_conf c' s (reset_or_pause fd_timeout old true c' s m)
        else some (m, c', s, []))

  unfoldable pub interface_timeout_callback :
      ℤ → TimeoutUpd → Conf D → State D → BlModule D → Option (BlResult D)
  interface_timeout_callback fd_timeout up c s m =
      let changed = set_bl_timeout fd_timeout up c s m in
      if leb_ℤ day up.daytime && leb_ℤ up.daytime size_states then changed else some (m, c, s, [])

  -- `old_val` is the time of day before a change of it; `is_event` tells that `state.in_event` has changed.
  unfoldable pub time_callback : ℤ → ℤ → Bool → Conf D → State D → BlModule D → Option (BlResult D)
  unfolding reset_or_pause
  time_callback fd_timeout old_val is_event c s m = do
    row ← at c.bl_conf.timeout s.ac_state
    old_timeout ←
        at_daytime row
          (if is_event then (if s.in_event then s.day_time else during_event) else old_val)
    and_conf c s (reset_or_pause fd_timeout old_timeout true c s m)
