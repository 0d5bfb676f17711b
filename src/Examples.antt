-- ===== src/Examples.antt =====
-- Concrete instances of the interfaces, and the theorems applied to them.
pub mod Months
pub mod Dates
pub mod Gregorian
pub mod Fixed
pub mod Data
pub mod Runs
mod Witnesses
pub mod Staff
mod VerbWitnesses
mod StaffWitnesses
