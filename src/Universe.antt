-- ===== src/Universe.antt =====
-- The choice of the universe, src/miry/universe.
pub mod Ranking
