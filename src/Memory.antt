-- ===== src/Memory.antt =====
-- Message stores.
pub mod Threads
pub mod Windows
pub mod Warming
pub mod Caches
