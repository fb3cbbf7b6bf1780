-- ===== src/Watchdog.antt =====
-- The watchdog of the lifecycle loops (services/watchdog/app/).
pub mod Keys
pub mod Checker
pub mod State
pub mod Cycle
pub mod Found
pub mod Restarts
pub mod Alerts
pub mod Recovery
pub mod Streak
mod Tests
