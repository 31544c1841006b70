-- ===== src/Pipeline/Quality.antt =====
-- The day's quality gate, src/miry/pipeline/quality.py.
pub mod Durations
pub mod Points
pub mod Coverage
pub mod Intersection
pub mod Extension
pub mod Explicit
pub mod Episodes
pub mod Finalize
pub mod Verdict
pub mod Validity
pub mod Accepting
pub mod Admitting
pub mod Gate
mod Examples
