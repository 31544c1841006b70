-- ===== src/Collector.antt =====
-- The collector, src/miry/collector.
pub mod Queue
pub mod Sharding
pub mod Traffic
pub mod DayIndex
pub mod Gaps
