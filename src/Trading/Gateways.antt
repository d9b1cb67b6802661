-- ===== src/Trading/Gateways.antt =====
-- app/modules/trading/infrastructure: the gateways that execute an order, and the risk adapter.
pub mod Paper
pub mod Ccxt
pub mod Risk
