-- ===== src/Schema.antt =====
-- The schema readers of the console: the YAML subset that four components scan line by line.
pub mod Lines
pub mod DialogParser
pub mod GraphParser
pub mod EvaluatorParser
pub mod ViewerParser
pub mod Agreement
pub mod Evaluator
pub mod Viewer
pub mod Page
pub mod Switching
