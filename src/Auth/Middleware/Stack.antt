-- ===== src/Auth/Middleware/Stack.antt =====
-- src/auth/middleware.rs: a request on its way through the guards to a handler.
