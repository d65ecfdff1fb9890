-- ===== src/Tuples.antt =====
-- The tuples page of the console: the display of a tuple, the filters, the table with its delete
-- dialog, and the dialog that creates a tuple (console/src/components/tuples, app/tuples/page.tsx).
pub mod Display
pub mod RoundTrip
pub mod Filters
pub mod FilterRequests
pub mod Table
pub mod Sessions
pub mod CreateDialog
pub mod Choices
pub mod Page
