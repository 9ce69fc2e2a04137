-- ===== src/Cache.antt =====
-- homework_memory_limit: an in-memory cache and a cache that limits the memory in use.
pub mod MapCache
pub mod LinkedList
pub mod MaxMemory
pub mod Keys
pub mod Loops
pub mod Totals
pub mod Accounting
pub mod Reading
pub mod Setting
pub mod Victims
pub mod Cleaning
pub mod Collected
pub mod Room
mod Tests
