-- ===== src/Inference.antt =====
-- internal/inference: the proxy and what it looks up.
pub mod Bodies
pub mod Proxy
pub mod Registry
pub mod Routes
