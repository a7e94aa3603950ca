-- ===== src/Etoro.antt =====
-- The two strategies on eToro, from the screeners to the orders.
pub mod Momentum
pub mod Judge
pub mod Proposal
pub mod Legs
pub mod Gateway
pub mod Screener
pub mod Runner
pub mod Universe
pub mod Rates
