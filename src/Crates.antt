-- ===== src/Crates.antt =====
-- Interfaces of the third-party crates that the code calls.
pub mod Decimals
pub mod Calendar
