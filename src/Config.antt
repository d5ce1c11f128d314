-- ===== src/Config.antt =====
-- internal/config: the worker's configuration and the defaults of the engines.
pub mod Values
pub mod Vllm
pub mod Sglang
pub mod Omni
pub mod Load
