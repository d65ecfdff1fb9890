-- ===== src/Layout.antt =====
-- The frame of the console: the store of the selected tenant, the tenant selector, and the sidebar
-- (console/src/lib/stores/tenant-store.ts, console/src/components/layout).
pub mod TenantStore
pub mod TenantSelector
pub mod Selection
pub mod Sidebar
