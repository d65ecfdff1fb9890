-- ===== src/Hooks.antt =====
-- The query hooks of the console (console/src/lib/hooks): the keys under which `react-query` caches
-- a response, when a query is enabled, and which keys a mutation invalidates.
pub mod Keys
pub mod Queries
pub mod Invalidation
