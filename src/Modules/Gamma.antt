-- ===== src/Modules/Gamma.antt =====
-- modules/gamma.c: the temperature of the screen, by time of day or by the backlight. `day_of` is
-- `localtime_r`, for the day of the year and the year; `ok`: the call that sets the temperature succeeds.
pub mod Handlers
pub mod Resumed
use clight.Prelude.{
  ℕ, Bool, true, false, not, ◌&&◌, ◌||◌, Option, none, some, List, [], ◌∷◌, ◌==◌, if◌then◌else◌,
  ◌>>=◌, ◌+ℤ◌, ◌-ℤ◌, ltb_ℤ, ◌==ℤ◌, abs, ℤ, pos,
}
use clight.Public.{at, put, TempUpd, AmbgammaUpd, temp_upd}
use clight.Commons.{
  Float, GammaConf, Conf, State, paused, gamma_set, Effect, publish, become, unbecome, bus,
}
use clight.Utils.Pause.{mod_check_pause, ModPause, timeout}
use clight.Utils.MyMath.{of_int}

-- `paused_state`, the flags, and `on_daytime_req`'s `last_t`.
pub record GammaModule : Type 0 where
  pub paused_state : ℕ
  pub initial_temp : ℤ
  pub long_transitioning : Bool
  pub should_sync_temp : Bool
  pub last_t : ℤ

-- What `set_temp` is asked for: the temperature, `smooth`, the step and the timeout.
pub record Transition : Type 0 where
  pub temp : ℤ
  pub smooth : ℤ
  pub step : ℤ
  pub timeout : ℤ

-- What a handler gives back: the module, the configuration, the shared state and the calls.
abbrev pub GammaResult : Type 0 → Type 0
GammaResult D = GammaModule × Conf D × State D × List (Effect D)

unfoldable pub on_new_next_dayevt : GammaModule → GammaModule
on_new_next_dayevt m = record m { long_transitioning = false }

module _ {D : Type 0} ⦃f : Float D⦄ where
  unfoldable pub publish_temp_upd : Transition → State D → Effect D
  publish_temp_upd t s = publish (
      temp_upd (record {
        daytime = s.day_time;
        old = s.current_temp;
        new = t.temp;
        smooth = t.smooth;
        step = t.step;
        timeout = t.timeout;
      }))

  -- `conf.gamma_conf.temp[!state.day_time]`.
  abbrev pub other_temp : Conf D → State D → ℤ
  other_temp c s =
      if s.day_time ==ℤ pos 0 then c.gamma_conf.temp.second else c.gamma_conf.temp.first

  -- What is left of an event, for a long transition, and its target.
  abbrev pub long_transition : Conf D → ℤ → ℤ → ℤ → State D → Transition
  long_transition c now event temp s =
      let first_half = s.event_time_range ==ℤ pos 0 in
      let left =
        if first_half
        then (event -ℤ now) +ℤ c.day_conf.event_duration
        else c.day_conf.event_duration -ℤ (now -ℤ event) in
      let diff = abs (c.gamma_conf.temp.first -ℤ c.gamma_conf.temp.second) in
      record {
        temp = if first_half then other_temp c s else temp;
        smooth = pos 1;
        step = f.truncate (f.div (of_int diff) (f.div (of_int left) (of_int (pos 10))));
        timeout = pos 10000;
      }

  -- The transition that is made, and whether it is a long one.
  unfoldable pub transition_of :
      Conf D → Option ℤ → Transition → State D → Option (Transition × Bool)
  transition_of c none t s = some (t, false)
  transition_of c (some now) t s =
      let long =
        (at s.day_events s.next_event >>= λ event.
        some (long_transition c now event t.temp s, true)) in
      if c.gamma_conf.long_transition && s.in_event then long else some (t, false)

  unfoldable pub set_temp :
      Bool
      → Transition
      → Option ℤ
      → Conf D
      → State D
      → GammaModule
      → Option (GammaModule × List (Effect D))
  unfolding transition_of publish_temp_upd
  set_temp ok t now c s m = do
    (t', long) ← transition_of c now t s
    let quiet = not long && c.gamma_conf.no_smooth
    some (
      record m { long_transitioning = long },
      bus (gamma_set t'.temp t'.smooth t'.step t'.timeout)
          ∷ (if ok then (if quiet then [] else publish_temp_upd t' s ∷ []) else []),
    )

  -- The transition of the configuration.
  abbrev pub conf_transition : Conf D → ℤ → Transition
  conf_transition c temp = record {
    temp = temp;
    smooth = if c.gamma_conf.no_smooth then pos 0 else pos 1;
    step = c.gamma_conf.trans_step;
    timeout = c.gamma_conf.trans_timeout;
  }

  unfoldable pub ambient_callback :
      Bool → Bool → D → Conf D → State D → GammaModule → Option (GammaModule × List (Effect D))
  ambient_callback ok smooth new c s m =
      let day_temp = c.gamma_conf.temp.first in
      let night_temp = c.gamma_conf.temp.second in
      let min_temp = if ltb_ℤ night_temp day_temp then night_temp else day_temp in
      let ambient_temp =
        f.truncate (f.add (f.mul (of_int (abs (day_temp -ℤ night_temp))) new) (of_int min_temp)) in
      let set = set_temp ok (conf_transition c ambient_temp) none c s m in
      if c.gamma_conf.ambient_gamma
        && (s.display_state == 0)
        && (smooth || c.bl_conf.smooth.no_smooth)
      then set
      else some (m, [])

  unfoldable pub on_daytime_req :
      (ℤ → ℤ × ℤ)
      → Bool
      → ℤ
      → Conf D
      → State D
      → GammaModule
      → Option (GammaModule × List (Effect D))
  unfolding on_new_next_dayevt
  on_daytime_req day_of ok t c s m = do
    let (yday, year) = day_of t
    let (old_yday, old_year) = day_of m.last_t
    let other_day = not (yday ==ℤ old_yday) || not (year ==ℤ old_year)
    let long = m.long_transitioning && not other_day
    let m' : GammaModule = record m { long_transitioning = long; last_t = t }
    let set =
        (at c.gamma_conf.temp s.day_time >>= λ temp.
        set_temp ok (conf_transition c temp) (some t) c s m')
    (if not long && not c.gamma_conf.ambient_gamma then set else some (m', []))

  abbrev with_gamma : Conf D → GammaConf → Conf D
  with_gamma c g = record c { gamma_conf = g }

  unfoldable pub on_ambgamma_req :
      Bool → AmbgammaUpd → Conf D → State D → GammaModule → Option (GammaResult D)
  on_ambgamma_req ok up c s m = do
    let c' = with_gamma c (record c.gamma_conf { ambient_gamma = up.new })
    let by_time =
        (at c'.gamma_conf.temp s.day_time >>= λ temp.
        set_temp ok (conf_transition c' temp) none c' s m)
    (m', es) ← (if up.new then ambient_callback ok true s.current_bl_pct c' s m else by_time)
    some (m', c', s, es)

  unfoldable pub interface_callback :
      Bool → TempUpd → Conf D → State D → GammaModule → Option (GammaResult D)
  interface_callback ok req c s m = do
    temps ← put c.gamma_conf.temp req.daytime req.new
    let c' = with_gamma c (record c.gamma_conf { temp = temps })
    let asked : Transition = record {
      temp = req.new;
      smooth = req.smooth;
      step = req.step;
      timeout = req.timeout;
    }
    (m', es) ←
        (if not c'.gamma_conf.ambient_gamma && (req.daytime ==ℤ s.day_time)
          then set_temp ok asked none c' s m
          else ambient_callback ok true s.current_bl_pct c' s m)
    some (m', c', s, es)

  -- Clightd's `Changed`, for the own display.
  unfoldable pub on_temp_changed : ℤ → State D → State D × List (Effect D)
  on_temp_changed new_temp s = (
    record s { current_temp = new_temp },
    publish_temp_upd
          (record {
            temp = new_temp;
            smooth = pos 0;
            step = abs (s.current_temp -ℤ new_temp);
            timeout = pos 0;
          })
          s
        ∷ [],
  )

  unfoldable pub pause_mod :
      (ℤ → ℤ × ℤ)
      → Bool
      → ℤ
      → Bool
      → ModPause
      → Conf D
      → State D
      → GammaModule
      → Option (GammaModule × List (Effect D))
  pause_mod day_of ok t pause reason c s m =
      let (p, woken) = mod_check_pause pause m.paused_state reason in
      let m' = record m { paused_state = p } in
      let sync = on_daytime_req day_of ok t c s (record m' { should_sync_temp = false }) in
      if woken
      then (if pause
          then some (m', become paused ∷ [])
          else if m.should_sync_temp
          then (sync >>= λ (m'', es). some (m'', unbecome ∷ es))
          else some (m', unbecome ∷ []))
      else some (m', [])
