-- ===== src/NameHandler.antt =====
-- handlers/name_handler.py: the names of testcases, images, maps and stage directories.
pub mod Grammar
pub mod Patterns
pub mod Metadata
pub mod Stage
pub mod Lineage
pub mod Image
mod Tests
