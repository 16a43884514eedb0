-- ===== src/Security.antt =====
-- backend/src/litemcp/security: checks on requests and on API keys.
pub mod Csrf
pub mod Redaction
pub mod ApiKeys
pub mod Encryption
