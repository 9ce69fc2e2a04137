-- ===== src/Shutdown.antt =====
-- homework_graceful_shutdown/service: an application that shuts down in order.
pub mod App
mod Invariant
mod Steps
mod Order
mod Runs
mod Ends
mod Tests
