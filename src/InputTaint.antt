-- ===== src/InputTaint.antt =====
-- src/input_taint.rs: the analysis that looks for user input in the commands of a program.
pub mod Taint
pub mod Visit
pub mod Accepts
pub mod Rejects
pub mod Returns
