-- ===== src/Vnc.antt =====
-- src/auth/vnc.rs and src/api/vnc.rs: the tokens and the slots of console sessions.
pub mod Token
pub mod Limiter
pub mod Console
