-- ===== src/Format.antt =====
-- The binary data format of crates/common/src/format: the trait, its readers and its writers.
-- A reader is a byte slice, a writer is a byte vector, which takes every byte it is given.
mod Trait
pub mod Ints
pub mod Packed
pub mod Collections
pub mod Net
pub mod Maps
pub mod Headers
pub mod Laws
unfoldable pub use Trait.*
