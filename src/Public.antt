-- ===== src/Public.antt =====
-- public.h: the enumerations and the messages that the modules exchange. A C enumeration is the
-- integer that it is stored as, since -1 ("unknown", or "the current one") travels in it too.
-- `D` is C's `double`.
mod Enums
mod Messages
pub use Enums.*
pub use Messages.*
