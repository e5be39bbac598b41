-- ===== src/Modules.antt =====
-- modules/: the modules of the program, each as the handlers of its messages.
pub mod Counting
pub mod Inhibit
pub mod Pm
pub mod Interface
pub mod Daytime
pub mod Keyboard
pub mod Gamma
pub mod Upower
pub mod IdleClient
pub mod Dimmer
pub mod Dpms
pub mod Display
pub mod Backlight
pub mod Screen
pub mod Wizard
pub mod Location
