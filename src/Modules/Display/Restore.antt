-- ===== src/Modules/Display/Restore.antt =====
-- Dimming and its end.
use clight.Prelude.{
  ◌<◌, ◌≡◌, ◌≢◌, inl, inr, true, false, List, [], ◌∷◌, ◌++◌, arith, if◌then◌else◌, minus_one, pos,
}
use clight.Public.{display_on, display_dimmed, enter, exit, DisplayUpd, display_upd}
use clight.Commons.{Float, Conf, State, dpms_set, set_idle_hint, publish, bus}
use clight.Utils.MyMath.{of_int}
use clight.Modules.Display.{dimmer_publish_bl_req, on_display_req}
use clight.Modules.Display.Flags.{is_dimmed, is_off, display_cases}

module _ {D : Type 0} ⦃f : Float D⦄ (c : Conf D) where
  -- The display is dimmed, and `level` is the level that it had before.
  pub record HasSaved (level old_pct : D) (s : State D) : Type 0 where
    pub two_bits : s.display_state < 4
    pub dimmed : is_dimmed s.display_state ≡ true
    pub saved : old_pct ≡ level

  -- Dimming a display that is on, from above the dimmed level, saves the level and asks for the
  -- dimmed one.
  pub dim-HasSaved :
      (up : DisplayUpd) (old_pct : D) (s : State D)
      → up.new ≡ pos display_dimmed
      → up.no_backlight ≡ false
      → s.display_state ≡ display_on
      → f.lt c.dim_conf.dimmed_pct s.current_bl_pct ≡ true
      → let (old_pct', s', es) = on_display_req c up old_pct s in
        HasSaved s.current_bl_pct old_pct' s'
        × (es
            ≡ dimmer_publish_bl_req c.dim_conf.dimmed_pct enter
              ∷ publish (display_upd (record { old = pos 0; new = pos 1; no_backlight = false }))
              ∷ bus (set_idle_hint 1)
              ∷ [])
  unfolding on_display_req is_dimmed
  dim-HasSaved up old_pct s h1 h2 h3 h4 = ground arith

  -- While it is dimmed, no request but one for `DISPLAY_ON` touches the saved level.
  step-HasSaved :
      (up : DisplayUpd) (level old_pct : D) (s : State D)
      → up.new ≢ pos display_on
      → HasSaved level old_pct s
      → let (old_pct', s', es) = on_display_req c up old_pct s in HasSaved level old_pct' s'
  unfolding on_display_req is_dimmed
  step-HasSaved up level old_pct s ne h = elim (display_cases s.display_state h.two_bits) [
    | inl e ↦ ground arith
    | inr (inl e) ↦ ground arith
    | inr (inr (inl e)) ↦ ground arith
    | inr (inr (inr e)) ↦ ground arith
  ]

  -- Requests one after another; the backlight may have moved before each.
  pub display_run : List (D × DisplayUpd) → D → State D → D × State D
  display_run [] old_pct s = (old_pct, s)
  display_run ((pct, up) ∷ ups) old_pct s =
      let (old_pct', s', es) = on_display_req c up old_pct (record s { current_bl_pct = pct }) in
      display_run ups old_pct' s'

  abbrev pub NoneOn : List (D × DisplayUpd) → Type 0
  NoneOn [] = Unit
  NoneOn ((pct, up) ∷ ups) = (up.new ≢ pos display_on) × NoneOn ups

  run-HasSaved :
      (ups : List (D × DisplayUpd)) (level old_pct : D) (s : State D)
      → NoneOn ups
      → HasSaved level old_pct s
      → let (old_pct', s') = display_run ups old_pct s in HasSaved level old_pct' s'
  unfolding display_run
  run-HasSaved [] level old_pct s n h = h
  run-HasSaved ((pct, up) ∷ ups) level old_pct s (ne, n) h =
      let s0 = record s { current_bl_pct = pct } in
      let (old_pct', s', es) = on_display_req c up old_pct s0 in
      run-HasSaved ups level old_pct' s' n (
        step-HasSaved up level old_pct s0 ne
          (record { two_bits = h.two_bits; dimmed = h.dimmed; saved = h.saved }))

  -- `DISPLAY_ON` puts the saved level back, once, and ends both flags.
  on-restores :
      (up : DisplayUpd) (level old_pct : D) (s : State D)
      → up.new ≡ pos display_on
      → up.no_backlight ≡ false
      → f.le (of_int (pos 0)) level ≡ true
      → HasSaved level old_pct s
      → let (old_pct', s', es) = on_display_req c up old_pct s in
        (old_pct' ≡ of_int minus_one)
        × (s'.display_state ≡ display_on)
        × (es
            ≡ (if is_off s.display_state then bus (dpms_set false) ∷ [] else [])
              ++ (dimmer_publish_bl_req level exit
                  ∷ publish (
                      display_upd
                        (record { old = pos s.display_state; new = pos 0; no_backlight = false }))
                  ∷ bus (set_idle_hint 0)
                  ∷ []))
  unfolding on_display_req is_dimmed is_off
  on-restores up level old_pct s h1 h2 h3 h = elim (display_cases s.display_state h.two_bits) [
    | inl e ↦ ground arith
    | inr (inl e) ↦ ground arith
    | inr (inr (inl e)) ↦ ground arith
    | inr (inr (inr e)) ↦ ground arith
  ]

  -- A display that is on, at a level that is not negative and is above the dimmed one, is dimmed with
  -- its backlight; other requests than `DISPLAY_ON` come, and the backlight moves; then `DISPLAY_ON`
  -- comes, for the backlight too. The level from before the dimming is asked for again, with the
  -- smoothing of the dimmer's exit; the display is switched on if it was off; it is on, which is
  -- announced, and nothing stays saved.
  pub dim-restore :
      (dim on : DisplayUpd) (ups : List (D × DisplayUpd)) (old_pct : D) (s : State D)
      → dim.new ≡ pos display_dimmed
      → dim.no_backlight ≡ false
      → s.display_state ≡ display_on
      → f.lt c.dim_conf.dimmed_pct s.current_bl_pct ≡ true
      → f.le (of_int (pos 0)) s.current_bl_pct ≡ true
      → NoneOn ups
      → on.new ≡ pos display_on
      → on.no_backlight ≡ false
      → let (old_pct1, s1, es1) = on_display_req c dim old_pct s in
        let (old_pct2, s2) = display_run ups old_pct1 s1 in
        let (old_pct3, s3, es3) = on_display_req c on old_pct2 s2 in
        (old_pct3 ≡ of_int minus_one)
        × (s3.display_state ≡ display_on)
        × (es3
            ≡ (if is_off s2.display_state then bus (dpms_set false) ∷ [] else [])
              ++ (dimmer_publish_bl_req s.current_bl_pct exit
                  ∷ publish (
                      display_upd
                        (record { old = pos s2.display_state; new = pos 0; no_backlight = false }))
                  ∷ bus (set_idle_hint 0)
                  ∷ []))
  dim-restore dim on ups old_pct s h1 h2 h3 h4 h5 n h6 h7 =
      let (old_pct1, s1, es1) = on_display_req c dim old_pct s in
      let (old_pct2, s2) = display_run ups old_pct1 s1 in
      on-restores on s.current_bl_pct old_pct2 s2 h6 h7 h5
        (run-HasSaved ups s.current_bl_pct old_pct1 s1 n (dim-HasSaved dim old_pct s h1 h2 h3 h4).0)
