-- ===== src/Api/Vms/Rows.antt =====
-- src/api/vms.rs: the rows of the answers about VMs.
use moxui.Prelude.{ℕ, List, [], ◌∷◌, Str, Bool, false, Option, none, some, if◌then◌else◌}
use moxui.Proxmox.Types.{F64, VmResource}

pub record VmRow : Type 0 where
  pub cluster : Str
  pub vmid : ℕ
  pub name : Str
  pub node : Str
  pub status : Str
  pub cpu : Option F64
  pub cpus : Option F64
  pub mem : Option ℕ
  pub maxmem : Option ℕ
  pub uptime : Option ℕ
  pub tags : Option Str

-- `VmRow::from`.
unfoldable pub vm_row : Str → VmResource → VmRow
vm_row cluster r = record {
  cluster = cluster;
  vmid = r.vmid;
  name = r.name;
  node = r.node;
  status = r.status;
  cpu = r.cpu;
  cpus = r.cpus;
  mem = r.mem;
  maxmem = r.maxmem;
  uptime = r.uptime;
  tags = r.tags;
}

pub record VmActionResponse : Type 0 where
  pub vmid : ℕ
  pub action : Str
  pub upid : Str

pub record DeleteVmRequest : Type 0 where
  pub purge : Bool
  pub force : Bool
  pub skiplock : Bool

unfoldable pub default_delete : DeleteVmRequest
default_delete = record { purge = false; force = false; skiplock = false }

-- `Iterator::find`.
unfoldable pub find {ℓ} : {A : Type ℓ} → (A → Bool) → List A → Option A
find p [] = none
find p (x ∷ xs) = if p x then some x else find p xs
