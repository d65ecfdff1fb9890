-- ===== src/Schema/Agreement.antt =====
-- The three scanners, compared: create-tuple-dialog.tsx with schema-evaluator.tsx, and with
-- schema-graph.tsx.
pub mod Names
pub mod TypeMaps
pub mod Graph
