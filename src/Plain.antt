-- ===== src/Plain.antt =====
-- homework1: the HTTP router without middlewares.
pub mod Tree
pub mod Register
pub mod Match
mod Forget
mod Refining
mod Serving
mod Tests
