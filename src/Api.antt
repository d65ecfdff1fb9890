-- ===== src/Api.antt =====
-- The HTTP client of the console (console/src/lib/api): its types, the requests it builds, and the
-- treatment of error responses.
pub mod Types
pub mod Requests
pub mod Paths
pub mod Filters
pub mod Client
