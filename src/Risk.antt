-- ===== src/Risk.antt =====
-- src/risk/: the hard risk kernel.
pub mod KillSwitch
pub mod Sizing
pub mod Margin
pub mod Correlation
pub mod Limits
pub mod Engine
