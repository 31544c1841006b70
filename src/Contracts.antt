-- ===== src/Contracts.antt =====
-- The shared data models, src/miry/contracts.
pub mod Gap
pub mod Raw
pub mod Symbols
pub mod Chunks
pub mod Decisions
