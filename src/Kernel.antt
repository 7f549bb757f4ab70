-- ===== src/Kernel.antt =====
-- The kernel crate, genet-kernel/src: frames, the decoder threads, and the store's event loop.
pub mod Frame
pub mod Serial
pub mod Dispatcher
pub mod Store
pub mod Pipeline
pub mod ArrayVec
pub mod Profile
pub mod Session
