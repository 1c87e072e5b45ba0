-- ===== src/Nips.antt =====
-- The protocol extensions of src/nips.
pub mod Negentropy
pub mod Nip44
