-- ===== src/Trading.antt =====
-- app/modules/trading: orders, positions and the services that place orders and apply fills.
pub mod Order
pub mod Position
pub mod Ports
pub mod Gateways
pub mod Routes
pub mod Repositories
pub mod PlaceOrder
