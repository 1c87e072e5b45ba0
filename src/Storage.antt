-- ===== src/Storage.antt =====
-- Event storage (src/storage): NIP-09 deletion, the put decision, and the in-memory index.
pub mod Deletion
pub mod Put
pub mod MemoryIndex
