-- ===== src/Orderbook.antt =====
-- The order book's snapshot protocol, src/miry/orderbook.
pub mod Bridge
