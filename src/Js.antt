-- ===== src/Js.antt =====
-- What the services use of JavaScript itself: text operations and parsed JSON values.
pub mod Text
pub mod Pattern
pub mod Json
pub mod Uuid
pub mod Lines
