-- ===== src/Pubsub.antt =====
-- pubsub/: the checks of requests.
pub mod Validations
pub mod Timeouts
