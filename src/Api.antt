-- ===== src/Api.antt =====
-- The API types (pkg/api/v1alpha2): one child for each file of it that the program's logic reads.
pub mod Version
pub mod Image
pub mod Platform
pub mod Include
pub mod Config
