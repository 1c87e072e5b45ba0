-- ===== src/Core.antt =====
-- The NIP-01 data model (src/core).
pub mod Collections
pub mod Json
pub mod Kind
pub mod Message
pub mod Hex
pub mod Tag
pub mod Event
pub mod Filter
