-- ===== src/Lib.antt =====
-- A model of Clight, a user daemon that adjusts a screen's backlight, its gamma and its power states
-- to ambient light, time of day and user activity.
--
-- The program is a set of modules that exchange messages over libmodule's publish/subscribe bus, and
-- that read and write one shared state, `state`, and one configuration, `conf`. A request (`_REQ`) is
-- checked by src/pubsub/validations.c and handled by the module that owns the value, which
-- stores it and announces it (`_UPD`). Each module has a `receive`, on top of which it may put other
-- handlers of messages, such as `receive_paused`.
--
-- The files, and what they are about:
--   Prelude      the shared names; integers over the native numbers; lists
--   Public       src/public.h: the enumerations and the messages
--   Commons      src/commons.h: `conf_t` (Config) and `state_t` (Shared); the calls that a handler makes
--                (Effects) and libmodule's stack of handlers (Receivers)
--   Utils        src/utils/: utils.c's `mod_check_pause` (Pause), timer.c (Timer), my_math.c (MyMath),
--                idler.c (Idler)
--   Pubsub       src/pubsub/validations.c
--   Modules      src/modules/: inhibit.c, pm.c, display.c, dimmer.c, dpms.c, upower.c, daytime.c,
--                keyboard.c, gamma.c, backlight.c, screen.c, wizard.c, location.c, and the locks of
--                interface.c. IdleClient is what dimmer.c and dpms.c do word for word alike.
--                Counting is the specification of a counter of holders, which inhibit.c and the
--                suspensions of pm.c refine, and for which the locks make requests.
--   Settings     src/conf/config.c: reading a file (Load, Read) and what is written to one (Store)
--   Options      src/conf/opts.c: the defaults, the checks of a configuration, the ranges (Range)
--   Examples     concrete data, and the theorems at concrete inputs
--
-- How the code corresponds:
--   * A handler takes the message, the module's own variables (its static ones too), `conf` and `state`
--     as far as it reads them, and returns the variables that it writes, and the list of its calls in
--     order: what it publishes, the handlers that it puts on the stack, its timers and its bus calls.
--     Messages to the log are left out.
--   * libmodule is a parameter: `Libmodule` is a stack with `m_become` and `m_unbecome`. So is its map,
--     `LockMap`, with its laws `MapLaws`. What a call on D-Bus answers is an argument of the handler that
--     makes it, and so are the time, `random`, and whether `malloc` succeeds.
--   * libconfig is a parameter too: `Libconfig` is what reads a file, a `Root` is what is written to one, and
--     `Written` is what libconfig documents of a file that is written and read again.
--   * A `double` is a type with the operations of `Float`; the C library's functions are `Libm`, `SunMath`
--     (with the conversion to `float`) and `Calendar`. The laws that a theorem needs are its hypotheses.
--   * DAYTIME's handlers take the sun of the place as `Sun`, the results of calculate_sunrise and
--     calculate_sunset by the shift in days; `sun_at` (Utils/MyMath/Sun) is what my_math.c computes.
--   * An `int` and a `time_t` are integers without a bound, but in timer.c, whose conversions between
--     `int` and `unsigned int` are written out on 32 bits, and in the bits of `paused_state` and
--     `display_state`. That `set_timeout` takes an `int` is not modelled in daytime.c.
--   * A read or a write out of an array's bounds gives `none`, in the wizard `out_of_bounds`; so does a copy
--     of points that are more than the 50 that a curve has room for (`copy_points`).
--   * A descriptor is registered with a pointer to a message, or with none, and an input that says that it is
--     ready brings that pointer back.
--   * `get_next_events` calls itself for the next day. It runs on fuel, the number of days that it may
--     look at: 2 are enough where tomorrow's sunset is not over.
--   * BACKLIGHT's maps are lists of entries in the order of their iterators; what clightd and the timer answer
--     is `BlReplies`. A string of a path is the list of its bytes.
--   * A message is a value, so that a check that fills in a request's defaults returns the request. That
--     a static message keeps what was filled in is not modelled.
--
-- Not modelled: the parsing of the command line, the log, the bus layer, the rest of the
-- D-Bus interface, plugins, and `main`; of the modelled modules, `init` and `destroy` where
-- they only subscribe to messages, export an interface or release what is held.
pub mod Prelude
pub mod Public
pub mod Commons
pub mod Utils
pub mod Pubsub
pub mod Settings
pub mod Options
pub mod Modules
mod Examples
