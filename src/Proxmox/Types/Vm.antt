-- ===== src/Proxmox/Types/Vm.antt =====
-- src/proxmox/types.rs: the bodies of the requests that write to a VM.
use moxui.Prelude.{ℕ, Str, Bool, Option}

pub record CreateVmRequest : Type 0 where
  pub vmid : Option ℕ
  pub name : Option Str
  pub description : Option Str
  pub cores : Option ℕ
  pub sockets : Option ℕ
  pub memory : Option ℕ
  pub balloon : Option ℕ
  pub boot : Option Str
  pub bios : Option Str
  pub machine : Option Str
  pub scsihw : Option Str
  pub cpu : Option Str
  pub arch : Option Str
  pub tags : Option Str
  pub template : Option ℕ
  pub onboot : Option ℕ
  pub agent : Option ℕ
  pub storage : Option Str
  pub disk_size : Option Str
  pub net_model : Option Str
  pub net_bridge : Option Str
  pub ostype : Option Str
  pub ide2 : Option Str
  pub start : Option Bool
  pub numa_enabled : Option Bool

pub record CloneVmRequest : Type 0 where
  pub newid : ℕ
  pub target : Option Str
  pub name : Option Str
  pub storage : Option Str
  pub full : Bool
  pub snapname : Option Str
  pub description : Option Str
  pub start : Option Bool
  pub pool : Option Str

pub record UpdateVmConfigRequest : Type 0 where
  pub name : Option Str
  pub description : Option Str
  pub cores : Option ℕ
  pub sockets : Option ℕ
  pub memory : Option ℕ
  pub balloon : Option ℕ
  pub boot : Option Str
  pub bios : Option Str
  pub machine : Option Str
  pub scsihw : Option Str
  pub cpu : Option Str
  pub tags : Option Str
  pub template : Option ℕ
  pub onboot : Option ℕ
  pub agent : Option ℕ
  pub delete : Option Str
  pub ciuser : Option Str
  pub sshkeys : Option Str
  pub ipconfig : Option Str
  pub nameserver : Option Str
  pub searchdomain : Option Str
  pub net : Option Str

pub record BackupVmRequest : Type 0 where
  pub storage : Str
  pub mode : Str
  pub compress : Str
  pub remove : Option Bool
  pub notes : Option Str
  pub performance : Option Str

pub record CreateSnapshotRequest : Type 0 where
  pub snapname : Str
  pub description : Option Str
  pub vmstate : Bool

pub record DeleteSnapshotRequest : Type 0 where
  pub force : Bool

pub record ResizeDiskRequest : Type 0 where
  pub disk : Str
  pub size : Str

pub record CreateReplicationJob : Type 0 where
  pub source_vmid : ℕ
  pub source_node : Option Str
  pub target : Str
  pub target_vmid : Option ℕ
  pub rate : Option ℕ
  pub schedule : Str
  pub comment : Option Str
  pub enable : Bool

pub record UpdateReplicationJob : Type 0 where
  pub enable : Option Bool
  pub rate : Option ℕ
  pub schedule : Option Str
  pub comment : Option Str
