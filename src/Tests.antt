-- ===== src/Tests.antt =====
-- Concrete inputs, on which the theorems of the other modules are applied.
mod Versions
mod Sets
mod Mappings
mod Configs
mod Operators
mod Graphs
mod Archives
mod Bundles
mod Catalogs
mod Commands
mod Runs
mod Builders
