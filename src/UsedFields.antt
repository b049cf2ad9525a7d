-- ===== src/UsedFields.antt =====
-- src/pushdown.rs: `UsedFieldAnalysis`, the columns that a program may read.
pub mod Sets
pub mod Visit
pub mod Reads
pub mod Joins
pub mod Covers
