-- ===== src/FileAction.antt =====
-- The FileAction tool, tools/file_action/mod.rs: one module for each stage of a patch.
pub mod Types
pub mod Binary
pub mod Hex
pub mod Lines
pub mod Shape
pub mod Hash
pub mod Report
pub mod Actions
