-- ===== src/Logging.antt =====
-- packages/runtime/src/logging.
pub mod State
pub mod Dispatcher
pub mod Promises
