-- ===== src/Runtime.antt =====
-- What the source uses of the JavaScript runtime: maps, sets, sorting and text.
pub mod Map
pub mod Set
pub mod Str
pub mod Sort
