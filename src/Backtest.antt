-- ===== src/Backtest.antt =====
-- app/modules/backtest: the simulation of a strategy over past candles.
pub mod Entities
pub mod Engine
pub mod Gateway
pub mod Routes
