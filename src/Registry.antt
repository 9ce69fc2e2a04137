-- ===== src/Registry.antt =====
-- homework_subquery/model: the registry of models.
pub mod Naming
pub mod Models
mod Camel
pub mod Shape
pub mod Renaming
mod Stored
mod Tests
