-- ===== src/Shellbridge.antt =====
-- internal/shellbridge: shells and logs of containers.
pub mod Lines
pub mod Resolve
pub mod ProgressLogs
pub mod Session
pub mod Host
