-- ===== src/MarketData.antt =====
-- app/modules/marketdata: the normalized market data.
pub mod Entities
pub mod Ingest
pub mod CandleTable
pub mod Routes
pub mod Vendors
