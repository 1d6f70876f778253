-- ===== src/Health.antt =====
-- internal/health: the health model of the daemon, its supervisor and its watchdog.
pub mod Entity
pub mod Model
pub mod Calls
pub mod Frame
pub mod Watchdog
pub mod Supervise
pub mod SelfRestart
pub mod Classify
pub mod Notify
mod Tests
pub mod Backoff
pub mod Evidence
pub mod Escalation
