-- ===== src/Checkpoint.antt =====
-- pkg/checkpoint: checkpoints and journals of threads.
pub mod Stores
pub mod Threads
