-- ===== src/Authn.antt =====
-- internal/authn: who is calling.
pub mod Identity
pub mod Tokens
