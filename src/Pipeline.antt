-- ===== src/Pipeline.antt =====
-- The worker's pipeline (services/worker/app/pipeline/).
pub mod Retry
pub mod Backoff
pub mod SecondLook
pub mod Verdict
pub mod Hashes
pub mod Record
pub mod Notified
mod Tests
