-- ===== src/Docker.antt =====
-- internal/runtime/dockerclient: the container specification, and the in-memory client.
pub mod Spec
pub mod Fake
