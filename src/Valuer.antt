-- ===== src/Valuer.antt =====
-- homework_subquery/internal/valuer: reading a row of a result into a struct.
pub mod Values
mod Alike
mod Registered
mod Tests
