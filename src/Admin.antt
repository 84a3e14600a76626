-- ===== src/Admin.antt =====
-- internal/admin: the admin server's login guard.
pub mod LoginLimiter
