-- ===== src/Auth.antt =====
-- The src/auth folder that each service keeps a copy of: token verification, the global guard and
-- the ownership rule. The definitions are mapped to one of the copies, which do not differ.
pub mod Http
pub mod Verifier
pub mod Guard
pub mod Ownership
mod Tests
