-- ===== src/Examples.antt =====
-- Concrete inputs: each theorem with a hypothesis at a run that exercises the code, and tests.
mod Trading
mod Risk
mod Placing
mod Reliability
mod Backtest
mod Auth
mod Ingest
mod Workers
mod Providers
mod Messaging
mod Vendors
mod Orders
mod Scaffold
mod Waiting
