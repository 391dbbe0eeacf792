-- ===== src/Prompt.antt =====
-- Prompts: fragments, the store in memory, and the cache on top of a store.
pub mod Fragments
pub mod Backend
pub mod Reading
pub mod Cache
pub mod Stale
pub mod Composer
pub mod Slots
pub mod Orders
