-- ===== src/Security.antt =====
-- src/security: the layers in front of the routes.
pub mod RateLimiter
pub mod ApiKey
