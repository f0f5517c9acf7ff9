-- ===== src/Tests.antt =====
-- Concrete inputs: the theorems at work on small stores, tokens and requests.
mod Toy
mod Refresh
mod Totp
mod Session
mod Accounts
mod Requests
mod Gateway
mod Clusters
mod Refusals
mod Audit
mod Notices
mod SignOn
mod Consoles
mod Desk
