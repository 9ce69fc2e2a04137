-- ===== src/Web.antt =====
-- homework2: the HTTP router with its middlewares.
pub mod Tree
pub mod Register
pub mod Match
pub mod Shape
pub mod Again
pub mod Conflicts
pub mod Paths
pub mod Serving
pub mod Static
mod Tests
