-- ===== src/Examples/Data.antt =====
-- A `double` as a number of hundredths, a configuration, and a state of the program.
use clight.Prelude.{
  ℕ, ◌*◌, ◌/◌, true, false, none, [], ◌∷◌, if◌then◌else◌, pos_part, neg_part, sub_ℕ, ◌+ℤ◌, ◌-ℤ◌,
  ◌*ℤ◌, ltb_ℤ, leb_ℤ, ◌==ℤ◌, abs, ℤ, pos,
}
use clight.Public.{day, sunrise, on_ac, display_on, lid_open, Pair, Loc}
use clight.Commons.{Float, Curve, BlSmooth, DayTimeouts, BlConf, GammaConf, Conf, State}

abbrev quotient : ℤ → ℕ → ℤ
quotient a k = if ltb_ℤ a (pos 0) then sub_ℕ 0 (neg_part a / k) else pos (pos_part a / k)

abbrev divide : ℤ → ℤ → ℤ
divide a b =
    if ltb_ℤ b (pos 0)
    then quotient (sub_ℕ (neg_part a) (pos_part a)) (neg_part b)
    else quotient a (pos_part b)

instance abbrev pub hundredths : Float ℤ
hundredths = record {
  lt = ltb_ℤ;
  le = leb_ℤ;
  eq = ◌==ℤ◌;
  add = ◌+ℤ◌;
  sub = ◌-ℤ◌;
  mul = λ a b. quotient (a *ℤ b) 100;
  div = λ a b. divide (a *ℤ pos 100) b;
  fabs = abs;
  literal = λ n k. quotient (sub_ℕ (pos_part n * 100) (neg_part n * 100)) k;
  truncate = λ a. quotient a 100;
}

abbrev both : {A : Type 0} → A → A → Pair A
both a b = record { first = a; second = b }

abbrev pub line : Curve ℤ
line = record { points = pos 0 ∷ pos 50 ∷ pos 100 ∷ []; fit_parameters = (pos 0, pos 50, pos 0) }

abbrev smoothing : BlSmooth ℤ
smoothing = record {
  no_smooth = false;
  trans_step = pos 5;
  trans_timeout = pos 30;
  trans_fixed = pos 0;
}

abbrev timeouts : DayTimeouts
timeouts = record { by_day = pos 600; by_night = pos 2700; by_event = pos 300 }

abbrev place : Loc ℤ
place = record { lat = pos 4500; lon = pos 900 }

abbrev bl : BlConf ℤ
bl = record {
  disabled = false;
  timeout = both timeouts timeouts;
  smooth = smoothing;
  no_auto_calib = false;
  shutter_threshold = pos 0;
  pause_on_lid_closed = false;
  capture_on_lid_opened = false;
  restore = false;
  sync_monitors_delay = pos 0;
}

abbrev gamma : GammaConf
gamma = record {
  disabled = false;
  temp = both (pos 6500) (pos 4000);
  no_smooth = false;
  trans_step = pos 50;
  trans_timeout = pos 300;
  long_transition = false;
  ambient_gamma = false;
  restore = false;
}

-- The configuration, with given offsets of the events.
abbrev pub conf_with : ℤ → Conf ℤ
conf_with offset = record {
  bl_conf = bl;
  sens_conf = record {
    num_captures = both (pos 5) (pos 5);
    dev_name = none;
    dev_opts = none;
    default_curve = both line line;
    specific_curves = [];
  };
  kbd_conf = record { disabled = false; timeout = both (pos 15) (pos 5); curve = both line line };
  gamma_conf = gamma;
  day_conf = record {
    day_events = both [] [];
    event_duration = pos 1800;
    loc = place;
    events_os = both offset offset;
  };
  dim_conf = record {
    disabled = false;
    dimmed_pct = pos 20;
    timeout = both (pos 45) (pos 20);
    smooth_enter = smoothing;
    smooth_exit = smoothing;
  };
  dpms_conf = record { disabled = false; timeout = both (pos 900) (pos 300) };
  screen_conf = record { disabled = false; contrib = pos 20; timeout = both (pos 30) (pos 40) };
  inh_conf = record {
    disabled = false;
    inhibit_docked = true;
    inhibit_pm = true;
    inhibit_bl = false;
  };
  verbose = false;
  wizard = false;
  resumedelay = pos 5;
}

abbrev pub conf : Conf ℤ
conf = conf_with (pos 0)

-- By day, on AC, with nothing inhibited, and the events of the day in seconds.
abbrev pub state : State ℤ
state = record {
  screen_br = pos 0;
  in_event = false;
  inhibited = false;
  pm_inhibited = false;
  sens_avail = pos 0;
  suspended = false;
  day_time = day;
  ac_state = on_ac;
  lid_state = lid_open;
  display_state = display_on;
  next_event = sunrise;
  event_time_range = pos 0;
  current_temp = pos 6500;
  day_events = both (pos 20000) (pos 70000);
  current_loc = place;
  current_bl_pct = pos 80;
  current_kbd_pct = pos 0;
  ambient_br = pos 50;
}
