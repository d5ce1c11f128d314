-- ===== src/Control.antt =====
-- internal/control: the channel to the control plane.
pub mod Dedup
pub mod Backoff
pub mod Tunnel
pub mod Commands
