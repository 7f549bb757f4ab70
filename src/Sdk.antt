-- ===== src/Sdk.antt =====
-- The SDK crate, genet-sdk/src: the casts that decoders describe their fields with.
pub mod Cast
pub mod Signed
