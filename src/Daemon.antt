-- ===== src/Daemon.antt =====
-- crates/paur-daemon/src: the worker, the poller, the HTTP handlers and the sessions.
pub mod State
pub mod Worker
pub mod Poller
pub mod Steps
pub mod Api
pub mod Auth
