-- ===== src/Proxy.antt =====
-- The /proxy endpoint of internal/server/server.go.
pub mod Settings
pub mod Egress
pub mod Attempts
pub mod Retry
pub mod Redirect
pub mod Target
pub mod Body
