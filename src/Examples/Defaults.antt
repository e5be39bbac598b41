-- ===== src/Examples/Defaults.antt =====
-- The checks of the options at concrete inputs.
use clight.Prelude.{◌≡◌, refl, inl, inr, true, arith, abs, ℤ, pos}
use clight.Commons.{Conf}
use clight.Options.{bl_default_ac, bl_default_batt, kbd_default_ac, kbd_default_batt, check_conf}
use clight.Options.Range.{wrong_points-Decides, IsValid, DefaultsFit}
use clight.Options.Valid.{check_conf-IsValid}
use clight.Options.Keeps.{check_conf-keeps, IsSettled}
use clight.Examples.Data.{hundredths, conf}
use clight.Examples.Data.{hundredths}

hundredths-DefaultsFit : DefaultsFit ℤ
unfolding abs
hundredths-DefaultsFit = record {
  step = (refl, refl);
  threshold = (refl, refl);
  fifth = (refl, refl);
  bl_ac = (wrong_points-Decides {D = ℤ} bl_default_ac).0 refl;
  bl_batt = (wrong_points-Decides {D = ℤ} bl_default_batt).0 refl;
  kbd_ac = (wrong_points-Decides {D = ℤ} kbd_default_ac).0 refl;
  kbd_batt = (wrong_points-Decides {D = ℤ} kbd_default_batt).0 refl;
  lat = inr refl;
  lon = inr refl;
}

-- A delay of a minute, and a temperature of 500.
abbrev unchecked : Conf ℤ
unchecked = record conf {
  resumedelay = pos 60;
  gamma_conf = record conf.gamma_conf { temp = record { first = pos 500; second = pos 4000 } };
}

check_conf-IsValid_example : IsValid (check_conf (λ s. true) (λ c. c) unchecked)
check_conf-IsValid_example =
    check_conf-IsValid hundredths-DefaultsFit (λ s. true) (λ c. c) unchecked

-- What the check has left once is left again.
abbrev checked : Conf ℤ
checked = check_conf (λ s. true) (λ c. c) unchecked

checked-IsSettled : IsSettled (λ s. true) checked
unfolding check_conf
checked-IsSettled = record {
  valid = check_conf-IsValid_example;
  no_wizard = refl;
  ambient = inl refl;
  dims = inl refl;
  screens = inl refl;
  sunrise_time = inr refl;
  sunset_time = inr refl;
  after_dimmer = inr (inr (omega arith, omega arith));
  inhibits = inl refl;
}

check_conf-keeps_example : check_conf (λ s. true) (λ c. c) checked ≡ checked
check_conf-keeps_example = check_conf-keeps (λ s. true) (λ c. c) checked refl checked-IsSettled
