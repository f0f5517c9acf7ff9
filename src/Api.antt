-- ===== src/Api.antt =====
-- src/api: the handlers of the HTTP interface.
pub mod Accounts
pub mod Handler
pub mod Listing
pub mod Session
pub mod Vms
pub mod Lxcs
pub mod HaGroups
pub mod Replication
pub mod Storages
pub mod Gathered
pub mod Networks
pub mod Ceph
pub mod Sdn
pub mod Firewall
pub mod Dashboard
pub mod Tasks
pub mod Cluster
pub mod Access
pub mod Routes
pub mod Audit
pub mod SingleSignOn
pub mod TwoFactor
