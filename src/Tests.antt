-- ===== src/Tests.antt =====
-- Concrete runs: tests of the scanners and of the graph, and the theorems applied to sample data.
pub mod Sources
pub mod Schemas
pub mod Requests
pub mod Tuples
pub mod Stores
pub mod Checks
pub mod Attributes
pub mod Pages
