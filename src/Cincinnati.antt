-- ===== src/Cincinnati.antt =====
-- The update graphs of the release channels (pkg/cincinnati).
pub mod Client
pub mod ShortestPath
pub mod Updates
pub mod Upgrades
pub mod Find
