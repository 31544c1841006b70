-- ===== src/Pipeline/L2.antt =====
-- Reconstruction of the order book, src/miry/pipeline/l2.py.
pub mod Levels
pub mod Book
pub mod Chains
pub mod Bridging
pub mod Safety
pub mod Receipts
pub mod Checkpoint
pub mod Start
pub mod Transport
pub mod Day
pub mod Authority
pub mod Succession
pub mod Rows
pub mod Beginning
pub mod Ending
pub mod Refusal
mod Examples
