-- ===== src/Examples.antt =====
-- Runs on concrete inputs, in the fixed-point arithmetic of Float/Fixed.
mod Fixture
mod Engine
mod Switch
mod Exposure
mod Etoro
mod Cycle
mod Schedule
mod Screener
mod RateLimit
mod Bus
mod Http
mod Cache
mod Backtest
mod Quant
mod Collectors
mod Closing
