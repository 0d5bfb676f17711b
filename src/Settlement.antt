-- ===== src/Settlement.antt =====
-- The assembly of a settlement from stored data (src/infrastructure/persistence and
-- src/application/service).
pub mod Statutory
pub mod Settings
pub mod Assembly
