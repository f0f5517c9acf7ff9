-- ===== src/Audit.antt =====
-- src/audit: the audit log and the middleware that writes it.
pub mod Store
pub mod Middleware
