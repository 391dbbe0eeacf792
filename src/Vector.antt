-- ===== src/Vector.antt =====
-- pkg/vector: the vector store in memory and the indexer.
pub mod Stores
pub mod Indexing
