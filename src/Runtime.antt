-- ===== src/Runtime.antt =====
-- internal/runtime: the life of model containers on a worker host.
pub mod Ports
pub mod Progress
pub mod Host
pub mod State
pub mod Group
pub mod Load
