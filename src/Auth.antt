-- ===== src/Auth.antt =====
-- internal/auth: the check of the inference token, and the store of the worker's token.
pub mod Bearer
pub mod TokenStore
