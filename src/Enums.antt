-- ===== src/Enums.antt =====
-- src/core/enums.py, by theme; the laws of the lookups stand in Enums/Laws.
pub mod StrEnum
pub mod Market
pub mod News
pub mod State
pub mod Laws
