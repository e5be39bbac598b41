-- ===== src/Examples.antt =====
-- Concrete data, and the theorems at concrete inputs.
mod Data
mod LockList
mod Counters
mod Screens
mod Idle
mod Sky
mod Locks
mod Curves
mod Keys
mod Warmth
mod Files
mod Daylight
mod Monitors
mod Contents
mod Defaults
mod Calibration
mod Places
