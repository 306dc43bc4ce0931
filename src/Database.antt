-- ===== src/Database.antt =====
-- Errors of the database, as the services tell them apart.
-- The copies of common/database-unavailable.filter.ts do not differ.
pub mod Errors
pub mod Filter
mod Tests
