-- ===== src/Changelog.antt =====
-- The changelog page of the console, and the store's reading of the log that it pages through
-- (console/src/app/changelog/page.tsx, console/src/components/changelog, and `ReadChangelog` of
-- pkg/storage/memory/store.go).
pub mod Page
pub mod Store
pub mod Paging
pub mod Server
