-- ===== src/Pesangon.antt =====
-- src/application/service/pesangon.rs: the final-settlement calculation.
pub mod Reason
pub mod Basis
pub mod Params
pub mod Tenure
pub mod LastPay
pub mod Compute
