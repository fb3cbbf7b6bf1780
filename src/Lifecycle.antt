-- ===== src/Lifecycle.antt =====
-- The lifecycle of sharing links (services/lifecycle-cron/app/processor.py): the rows of
-- `sharing_link_lifecycle`, the countdown milestones and the removal of expired links.
pub mod Row
pub mod Processor
pub mod Table
pub mod Rowwise
pub mod Removal
pub mod Expiry
pub mod Calls
pub mod Enrollment
pub mod Enrolled
mod Tests
