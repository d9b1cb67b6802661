-- ===== src/Providers.antt =====
-- app/infrastructure/providers: the registry of adapter factories, and the market data providers.
pub mod Registry
