-- ===== src/Pipeline.antt =====
-- The day pipeline, src/miry/pipeline.
pub mod Quality
pub mod L2
pub mod Gaps
