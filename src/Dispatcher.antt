-- ===== src/Dispatcher.antt =====
-- internal/dispatcher: the GPU allocator, and the adapter of the runtime to the control channel.
pub mod Gpu
pub mod Models
