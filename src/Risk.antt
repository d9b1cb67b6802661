-- ===== src/Risk.antt =====
-- app/modules/risk: the risk profile, the kill switch and the gate that every new order passes.
pub mod Entities
pub mod Store
pub mod Service
pub mod Routes
