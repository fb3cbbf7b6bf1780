-- ===== src/Escalation.antt =====
-- The verdict on a file (services/worker/app/ai/base_provider.py, pipeline/second_look.py): from the
-- categories and kinds of personal data that the model reports to an escalation tier.
pub mod Tier
pub mod Overrides
pub mod Members
pub mod Monotone
pub mod Sustain
mod Tests
