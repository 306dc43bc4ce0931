-- ===== src/Notifications.antt =====
-- services/notification-worker: the consumer of order.created messages.
pub mod Event
pub mod Broker
pub mod Table
pub mod Consumer
pub mod Listing
pub mod App
pub mod Reconnect
pub mod Session
pub mod Shutdown
pub mod Health
mod Tests
