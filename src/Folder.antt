-- ===== src/Folder.antt =====
-- Shared folders: `_handle_folder_share` of services/worker/app/pipeline/orchestrator.py, and
-- services/lifecycle-cron/app/folder_rescan.py.
pub mod Items
pub mod Children
pub mod Snapshots
pub mod Share
pub mod Tracks
pub mod Counts
pub mod Completed
pub mod Enumerated
pub mod Quiet
pub mod Closed
pub mod Rerun
pub mod Parent
pub mod Rescan
pub mod Cycle
pub mod Recorded
pub mod Again
pub mod Unchanged
pub mod Shared
pub mod Enqueued
pub mod Stamped
mod Tests
mod RescanTests
