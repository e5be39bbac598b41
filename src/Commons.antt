-- ===== src/Commons.antt =====
-- commons.h: the configuration, the state that the modules share, and what a module sees of the
-- program around it.
mod Config
mod Shared
mod Effects
mod Receivers
unfoldable pub use Config.*
pub use Shared.*
pub use Effects.*
pub use Receivers.*
