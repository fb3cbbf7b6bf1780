-- ===== src/Remediation.antt =====
-- Remediation of a file on an analyst's request (services/worker/app/remediation/).
pub mod World
pub mod Remove
pub mod Execute
pub mod Poller
pub mod Closing
pub mod Settled
pub mod Counts
mod Tests
