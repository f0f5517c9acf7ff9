-- ===== src/Auth.antt =====
-- src/auth: tokens, accounts and the checks in front of the handlers.
pub mod Crypto
pub mod Password
pub mod Refresh
pub mod Totp
pub mod User
pub mod Jwt
pub mod Middleware
pub mod Oidc
pub mod Ldap
