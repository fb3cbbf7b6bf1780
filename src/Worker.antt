-- ===== src/Worker.antt =====
-- The worker: services/worker/app/graph_api/sharing.py, pipeline/orchestrator.py and main.py there.
pub mod Sharing
pub mod Gate
pub mod Events
pub mod Analysis
pub mod Item
pub mod File
pub mod Rows
pub mod Steps
pub mod Ended
pub mod Frame
pub mod Job
pub mod Finished
pub mod Retries
pub mod Duplicate
pub mod Startup
pub mod Swept
pub mod Reclaimed
pub mod Samples
mod Tests
