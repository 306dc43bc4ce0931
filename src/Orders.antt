-- ===== src/Orders.antt =====
-- services/order-service: orders, their idempotency keys, the user directory and the publisher.
pub mod Types
pub mod Cache
pub mod Directory
pub mod Store
pub mod Service
pub mod Controller
pub mod App
pub mod Publisher
pub mod Shutdown
