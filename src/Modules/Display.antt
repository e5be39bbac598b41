-- ===== src/Modules/Display.antt =====
-- modules/display.c: the display is on, dimmed, off, or dimmed and off.
pub mod Flags
pub mod Restore
use clight.Prelude.{
  ℕ, bit_and, bit_or, Bool, true, false, not, ◌&&◌, List, [], ◌∷◌, ◌++◌, ◌==◌, if◌then◌else◌,
  minus_one, ◌==ℤ◌, pos, negsuc,
}
use clight.Public.{
  display_on, display_dimmed, display_off, DimTrans, enter, exit, DisplayUpd, display_upd,
  display_req, bl_req,
}
use clight.Commons.{Float, Conf, State, dpms_set, set_idle_hint, Effect, publish, bus, Input, user}
use clight.Utils.MyMath.{of_int}
use clight.Pubsub.Validations.{validate_display}

-- `~DISPLAY_OFF` and `~DISPLAY_DIMMED`, on 32 bits.
abbrev pub not_off : ℕ
not_off = 4294967293

abbrev pub not_dimmed : ℕ
not_dimmed = 4294967294

module _ {D : Type 0} ⦃f : Float D⦄ where
  -- modules/dimmer.c. The step and the timeout are for the receiver to fill in, since `smooth` is -2
  -- or -3.
  unfoldable pub dimmer_publish_bl_req : D → DimTrans → Effect D
  dimmer_publish_bl_req pct trans = publish (
      bl_req (record {
        old = of_int (pos 0);
        new = pct;
        smooth = elim trans [ enter ↦ negsuc 1 | exit ↦ negsuc 2 ];
        timeout = pos 0;
        step = of_int (pos 0);
      }))

  -- A branch of the switch: the saved level, the display's state and the calls.
  enter_dimmed : Conf D → Bool → D → State D → D × ℕ × List (Effect D)
  unfolding dimmer_publish_bl_req
  enter_dimmed c no_backlight old_pct s =
      let d = bit_or s.display_state display_dimmed in
      if not no_backlight && f.lt c.dim_conf.dimmed_pct s.current_bl_pct
      then (s.current_bl_pct, d, dimmer_publish_bl_req c.dim_conf.dimmed_pct enter ∷ [])
      else (old_pct, d, [])

  enter_off : Bool → D → State D → D × ℕ × List (Effect D)
  enter_off no_backlight old_pct s = (
    old_pct,
    bit_or s.display_state display_off,
    if no_backlight then [] else bus (dpms_set true) ∷ [],
  )

  leave_off : Bool → ℕ → ℕ × List (Effect D)
  leave_off no_backlight d =
      if bit_and d display_off == 0
      then (d, [])
      else (bit_and d not_off, if no_backlight then [] else bus (dpms_set false) ∷ [])

  leave_dimmed : Bool → D → ℕ → D × ℕ × List (Effect D)
  unfolding dimmer_publish_bl_req
  leave_dimmed no_backlight old_pct d =
      if bit_and d display_dimmed == 0
      then (old_pct, d, [])
      else if not no_backlight && f.le (of_int (pos 0)) old_pct
      then (of_int minus_one, bit_and d not_dimmed, dimmer_publish_bl_req old_pct exit ∷ [])
      else (old_pct, bit_and d not_dimmed, [])

  restore_on : Bool → D → State D → D × ℕ × List (Effect D)
  unfolding leave_off leave_dimmed
  restore_on no_backlight old_pct s =
      let (d, es) = leave_off no_backlight s.display_state in
      let (old_pct', d', es') = leave_dimmed no_backlight old_pct d in (old_pct', d', es ++ es')

  switch_display : Conf D → DisplayUpd → D → State D → D × ℕ × List (Effect D)
  unfolding enter_dimmed enter_off restore_on
  switch_display c up old_pct s =
      if up.new ==ℤ pos display_dimmed
      then enter_dimmed c up.no_backlight old_pct s
      else if up.new ==ℤ pos display_off
      then enter_off up.no_backlight old_pct s
      else if up.new ==ℤ pos display_on
      then restore_on up.no_backlight old_pct s
      else (old_pct, s.display_state, [])

  -- `DISPLAY_REQ`: the saved level `old_pct`, the shared state and the calls.
  unfoldable pub on_display_req : Conf D → DisplayUpd → D → State D → D × State D × List (Effect D)
  unfolding switch_display validate_display
  on_display_req c up old_pct s =
      let (old_pct', d, es) = switch_display c up old_pct s in
      let msg : DisplayUpd = record {
        old = pos s.display_state;
        new = pos d;
        no_backlight = false;
      } in
      if validate_display s up
      then (
        old_pct',
        record s { display_state = d },
        es ++ (publish (display_upd msg) ∷ bus (set_idle_hint d) ∷ []),
      )
      else (old_pct, s, [])

  unfoldable pub receive : Conf D → Input D → D → State D → D × State D × List (Effect D)
  receive c (user from (display_req up)) old_pct s = on_display_req c up old_pct s
  receive c _ old_pct s = (old_pct, s, [])

  -- `on_idle_hint_changed`: logind's hint, where the dimmer is disabled.
  unfoldable pub on_idle_hint_changed : Bool → State D → List (Effect D)
  on_idle_hint_changed idle s =
      publish (
        display_req (record {
          old = pos s.display_state;
          new = if idle then pos display_dimmed else pos display_on;
          no_backlight = true;
        }))
      ∷ []
