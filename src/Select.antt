-- ===== src/Select.antt =====
-- homework_select: the builder of SELECT statements over a model of the table.
pub mod Expression
pub mod Selector
pub mod Texts
pub mod Operands
pub mod Statements
pub mod Success
pub mod Marks
pub mod Placeholders
mod Tests
