-- ===== src/Auth.antt =====
-- internal/auth: password hashes and tokens.
pub mod Base64
pub mod Scan
pub mod Password
pub mod Tokens
