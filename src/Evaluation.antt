-- ===== src/Evaluation.antt =====
-- The replay of events on past prices and the figures of src/evaluation.
pub mod Backtest
