-- ===== src/Explorer.antt =====
-- The explorer page of the console: expanding a relation and drawing the tree of its subjects
-- (console/src/components/explorer, app/explorer/page.tsx).
pub mod Flow
pub mod Shape
pub mod Ends
pub mod Page
pub mod Drawing
