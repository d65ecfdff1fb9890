-- ===== src/Server.antt =====
-- The authorization server (pkg): its model, the compiled schema, the engine and the memory store.
pub mod Model
pub mod Schema
pub mod Engine
pub mod Store
pub mod Service
pub mod Tenants
pub mod Compile
pub mod Validate
