-- ===== src/Orm.antt =====
-- homework_subquery: the builders of SELECT statements with joins and subqueries, of INSERT and of
-- UPDATE.
pub mod Expression
pub mod Methods
pub mod Builder
pub mod Selector
pub mod Dialect
pub mod Inserter
pub mod Updater
pub mod Columns
mod Shapes
mod Outcomes
pub mod Texts
mod StatementTexts
mod Operands
mod Results
mod Statements
mod InsertTexts
mod Inserts
mod Insertion
mod Updates
mod Tests
mod Sharing
