-- ===== src/Operator.antt =====
-- Operator catalogs (pkg/operator).
pub mod Model
pub mod IncludeConfig
pub mod Catalog
pub mod Merge
pub mod Heads
pub mod ToModel
pub mod TwoWay
