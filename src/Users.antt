-- ===== src/Users.antt =====
-- services/user-service: the users, their store, the service and its controller.
pub mod Service
pub mod Controller
pub mod App
pub mod Samples
mod Tests
