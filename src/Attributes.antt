-- ===== src/Attributes.antt =====
-- The attributes page of the console: the editor of one entity's attributes, and the tabs that list
-- entities and open the editor (console/src/components/attributes, app/attributes/page.tsx).
pub mod Editor
pub mod RoundTrip
pub mod Rows
pub mod Tabs
pub mod Switching
