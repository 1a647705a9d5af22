-- ===== src/Mirror.antt =====
-- The mirror command (pkg/cli/mirror).
pub mod Icsp
pub mod Release
pub mod Previous
pub mod Publish
pub mod Create
pub mod Sequence
pub mod Options
pub mod Pack
pub mod Run
pub mod Manifests
pub mod Additional
