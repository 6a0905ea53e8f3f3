-- ===== src/Authz.antt =====
-- internal/authz: who may reach what.
pub mod Router
