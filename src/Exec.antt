-- ===== src/Exec.antt =====
-- The operators of exec.
pub mod Limit
pub mod Distinct
pub mod Vector
pub mod Compare
pub mod Logic
pub mod Select
pub mod Like
pub mod Predicates
pub mod Scan
pub mod TableScan
pub mod Sort
