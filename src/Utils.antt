-- ===== src/Utils.antt =====
-- utils/: the reasons for which a module is paused, the timers, the curves, the idle clients.
pub mod Pause
pub mod Timer
pub mod MyMath
pub mod Idler
