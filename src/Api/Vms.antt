-- ===== src/Api/Vms.antt =====
-- src/api/vms.rs: the handlers about VMs.
pub mod Params
pub mod Rows
pub mod Reads
pub mod Actions
pub mod Writes
pub mod Bulk
pub mod Steady
pub mod Access
pub mod BulkRows
pub mod Detail
pub mod Queries
