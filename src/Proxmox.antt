-- ===== src/Proxmox.antt =====
-- src/proxmox: what stands between the handlers and a cluster's API.
pub mod CircuitBreaker
pub mod Retry
pub mod Http
pub mod Types
pub mod Call
pub mod Client
