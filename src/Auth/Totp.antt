-- ===== src/Auth/Totp.antt =====
-- src/auth/totp.rs: two-factor authentication. One child per section of the file.
pub mod Base32
pub mod Code
pub mod Url
pub mod Backup
pub mod PreAuth
