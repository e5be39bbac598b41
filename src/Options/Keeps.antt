-- ===== src/Options/Keeps.antt =====
-- conf/opts.c: a configuration that is in range is left as it is.
use clight.Prelude.{ℕ, ◌≡◌, ◌⊎◌, Bool, true, false, not, ◌&&◌, ◌||◌, List, arith, pos}
use clight.Commons.{Float, Conf}
use clight.Options.{
  check_gamma_conf, check_bl_conf, check_sens_conf, check_override_conf, check_kbd_conf,
  check_dim_conf, check_dpms_conf, check_screen_conf, check_conf,
}
use clight.Options.Range.{GammaFits, InUnit, BlFits, CurvesFit, SensFits, DimFits, IsValid}
use clight.Options.Stay.{
  stays-outside, stays-unless, check_gamma_conf-keeps, check_inh_conf-keeps, IsTime,
  check_bl_conf-keeps, check_sens_conf-keeps, check_kbd_conf-keeps, check_daytime_conf-keeps,
  check_dim_conf-keeps, IsAfter, check_dpms_conf-keeps, check_screen_conf-keeps,
}

module _ {D : Type 0} ⦃f : Float D⦄ where
  -- All values are in range, and the sections agree: what needs the backlight is off without it.
  pub record IsSettled (strptime_r : List ℕ → Bool) (c : Conf D) : Type 0 where
    pub valid : IsValid c
    pub no_wizard : c.wizard ≡ false
    pub ambient : (c.bl_conf.disabled ≡ false) ⊎ (c.gamma_conf.ambient_gamma ≡ false)
    pub dims : (c.bl_conf.disabled ≡ false) ⊎ (c.dim_conf.disabled ≡ true)
    pub screens : (c.bl_conf.disabled ≡ false) ⊎ (c.screen_conf.disabled ≡ true)
    pub sunrise_time : IsTime strptime_r c.day_conf.day_events.first
    pub sunset_time : IsTime strptime_r c.day_conf.day_events.second
    pub after_dimmer : (c.dpms_conf.disabled ≡ true) ⊎ IsAfter c.dim_conf c.dpms_conf
    pub inhibits :
        ((c.dim_conf.disabled && c.dpms_conf.disabled) ≡ false)
        ⊎ ((c.inh_conf.disabled ≡ true)
            × (c.inh_conf.inhibit_docked ≡ false)
            × (c.inh_conf.inhibit_pm ≡ false))

  -- A configuration is left as it is, if it is not for the wizard and clightd has the features that it
  -- uses, each section that is not disabled has its values in range, without the backlight the dimmer, the
  -- screen's content and the ambient gamma are off, the times of the events are empty or can be read, the
  -- screen is switched off only after it is dimmed, where both are on, and, where neither is on, there is
  -- no inhibition.
  pub check_conf-keeps :
      (strptime_r : List ℕ → Bool) (features : Conf D → Conf D) (c : Conf D)
      → features c ≡ c
      → IsSettled strptime_r c
      → check_conf strptime_r features c ≡ c
  unfolding check_conf
  check_conf-keeps strptime_r features c e h =
      let no_bl = c.bl_conf.disabled in
      let v = h.valid in
      let amb : (not no_bl && c.gamma_conf.ambient_gamma) ≡ c.gamma_conf.ambient_gamma =
        ground (arith, h.ambient) in
      let dims : (no_bl || c.dim_conf.disabled) ≡ c.dim_conf.disabled = ground (arith, h.dims) in
      let screens : (no_bl || c.screen_conf.disabled) ≡ c.screen_conf.disabled =
        ground (arith, h.screens) in
      rw (
        e,
        h.no_wizard,
        stays-unless c.dim_conf.disabled (check_dim_conf no_bl) DimFits c.dim_conf v.dimmer
            (λ k. check_dim_conf-keeps no_bl c.dim_conf k dims),
        stays-unless c.dpms_conf.disabled (check_dpms_conf c.dim_conf) (IsAfter c.dim_conf)
            c.dpms_conf h.after_dimmer (check_dpms_conf-keeps c.dim_conf c.dpms_conf),
        stays-outside (pos 0) (pos 30) (pos 0) c.resumedelay v.resumedelay,
        stays-unless no_bl check_bl_conf BlFits c.bl_conf v.backlight
            (check_bl_conf-keeps c.bl_conf),
        stays-unless no_bl (λ s. check_override_conf (check_sens_conf s)) SensFits c.sens_conf
            v.sensor (check_sens_conf-keeps c.sens_conf),
        stays-unless c.kbd_conf.disabled check_kbd_conf (λ k. CurvesFit k.curve) c.kbd_conf
            v.keyboard (check_kbd_conf-keeps c.kbd_conf),
        stays-unless c.gamma_conf.disabled (check_gamma_conf no_bl) GammaFits c.gamma_conf v.gamma
            (λ k. check_gamma_conf-keeps no_bl c.gamma_conf k amb),
        check_daytime_conf-keeps strptime_r c.day_conf v.daytime h.sunrise_time h.sunset_time,
        stays-unless c.screen_conf.disabled (check_screen_conf no_bl) (λ x. InUnit x.contrib)
            c.screen_conf v.screen (λ k. check_screen_conf-keeps no_bl c.screen_conf k screens),
        check_inh_conf-keeps (c.dim_conf.disabled && c.dpms_conf.disabled) c.inh_conf h.inhibits,
      )
