-- ===== src/Proxmox/Types.antt =====
-- src/proxmox/types.rs: what the Proxmox API answers, as far as the code looks at it, and the
-- queries made of the requests.
pub mod Vm
pub mod Lxc
pub mod Queries
use moxui.Prelude.{ℕ, List, [], ◌∷◌, Str, codes, Bool, true, false, Option, none, some}

-- An `f64` that is only passed on, as its bit pattern.
abbrev pub F64 : Type 0
F64 = ℕ

pub record VmResource : Type 0 where
  pub vmid : ℕ
  pub name : Str
  pub node : Str
  pub kind : Str
  pub status : Str
  pub cpu : Option F64
  pub cpus : Option F64
  pub mem : Option ℕ
  pub maxmem : Option ℕ
  pub disk : Option ℕ
  pub maxdisk : Option ℕ
  pub netin : Option ℕ
  pub netout : Option ℕ
  pub diskread : Option ℕ
  pub diskwrite : Option ℕ
  pub uptime : Option ℕ
  pub template : Option ℕ
  pub tags : Option Str

pub record StorageResource : Type 0 where
  pub storage : Str
  pub kind : Str
  pub total : ℕ
  pub used : ℕ
  pub avail : ℕ
  pub used_fraction : Option F64
  pub enabled : Option ℕ
  pub shared : Option ℕ
  pub content : Option Str

pub record StorageContent : Type 0 where
  pub volid : Str
  pub storage : Str
  pub content : Str
  pub volid_name : Option Str
  pub size : ℕ
  pub used : Option ℕ
  pub format : Option Str
  pub ctime : Option ℕ

pub record BackupEntry : Type 0 where
  pub volid : Str
  pub storage : Str
  pub filename : Option Str
  pub size : ℕ
  pub format : Option Str
  pub ctime : Option ℕ
  pub notes : Option Str

pub record HaGroup : Type 0 where
  pub group : Str
  pub nodes : Option Str
  pub kind : Option Str
  pub comment : Option Str
  pub nofailback : Option ℕ
  pub restricted : Option ℕ

pub record ReplicationJob : Type 0 where
  pub id : ℕ
  pub enable : Option ℕ
  pub source_node : Option Str
  pub source_vmid : Option ℕ
  pub target : Option Str
  pub target_vmid : Option ℕ
  pub rate : Option ℕ
  pub schedule : Option Str
  pub comment : Option Str
  pub kind : Option Str

pub record NodeNetwork : Type 0 where
  pub iface : Str
  pub kind : Str
  pub active : Option ℕ
  pub address : Option Str
  pub gateway : Option Str
  pub address6 : Option Str
  pub gateway6 : Option Str
  pub bridge_ports : Option Str
  pub iface_vlan_raw_device : Option Str
  pub vlan_id : Option ℕ
  pub autostart : Option ℕ
  pub comments : Option Str

-- A Boolean as Proxmox takes it.
unfoldable pub flag : Bool → Str
flag true = codes "1"
flag false = codes "0"

-- `if let Some(v) = field { params.push((key, v)) }` for each field in turn.
unfoldable pub present : List (Str × Option Str) → List (Str × Str)
present [] = []
present ((key, none) ∷ fields) = present fields
present ((key, some v) ∷ fields) = (key, v) ∷ present fields
