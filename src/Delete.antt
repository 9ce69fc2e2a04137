-- ===== src/Delete.antt =====
-- homework_delete: the DELETE and SELECT statement builders.
pub mod Expression
pub mod Deleter
pub mod Selector
pub mod Render
pub mod Statements
pub mod Placeholders
pub mod Reading
pub mod Copies
mod Tests
