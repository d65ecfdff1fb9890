-- ===== src/Js.antt =====
-- The part of the JavaScript library that the console uses: texts, insertion-ordered maps and sets,
-- plain objects used as records, JSON values and printed numbers.
pub mod Text
pub mod Maps
pub mod Sets
pub mod Objects
pub mod Json
pub mod Numbers
