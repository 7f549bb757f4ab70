-- ===== src/Abi.antt =====
-- The ABI crate, genet-abi/src: tokens, values, attributes and layers.
pub mod Token
pub mod Result
pub mod Slice
pub mod Variant
pub mod Attr
pub mod Layer
pub mod Vec
pub mod Boxes
pub mod Metadata
