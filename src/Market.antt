-- ===== src/Market.antt =====
-- src/market/: the instruments.
pub mod Registry
