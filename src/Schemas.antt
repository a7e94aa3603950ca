-- ===== src/Schemas.antt =====
-- src/core/schemas.py: the typed contracts between the modules.
pub mod Market
pub mod Trade
