-- ===== src/Auth.antt =====
-- backend/src/litemcp/auth: accounts, sessions and authorization.
pub mod AccessJwt
pub mod Bootstrap
pub mod Lockout
pub mod Password
pub mod Rbac
pub mod ServiceRbac
pub mod Session
pub mod Refresh
pub mod Logout
pub mod Tables
