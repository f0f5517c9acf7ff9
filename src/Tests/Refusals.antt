-- ===== src/Tests/Refusals.antt =====
-- src/api: the theorems about refusals at concrete inputs.
use moxui.Prelude.{ℕ, List, Result, ok, [], Str, codes, true, none, err, ◌≡◌, refl, str_eq}
use moxui.Auth.User
use moxui.Auth.User.{parse_role, can, rank}
use moxui.Auth.Middleware.{require_role, insufficient_role}
use moxui.Api.Handler.Refusal.{Refused, operator_required}
use moxui.Api.Vms.Actions.{
  vm_action_handler, migrate_vm_handler, vm_template_handler, vm_sendkey_handler,
}
use moxui.Api.Vms.Bulk.{bulk_start, bulk_stop, bulk_reboot, bulk_delete}
use moxui.Proxmox.Types.Vm.{
  CreateVmRequest, CloneVmRequest, UpdateVmConfigRequest, BackupVmRequest, CreateSnapshotRequest,
  ResizeDiskRequest,
}
use moxui.Api.Vms.Writes.{
  create_vm_handler, clone_vm_handler, update_vm_config_handler, create_snapshot_handler,
  delete_snapshot_handler, rollback_snapshot_handler, backup_vm_handler, resize_disk_handler,
}
use moxui.Api.Vms.Access.{vm_handlers-Refused}
use moxui.Api.Access.{cluster_handlers-Refused}
use moxui.Api.Lxcs.{
  CreateLxcRequest, lxc_action_handler, lxc_delete_handler, lxc_create_handler,
  lxc_update_config_handler,
}
use moxui.Api.HaGroups.{HaGroupCreateRequest, create_ha_group, delete_ha_group}
use moxui.Api.Replication.{CreateReplicationRequest, create_replication_job, delete_replication_job}
use moxui.Api.Storages.{UploadResponse, delete_storage_content_handler, storage_upload_handler}
use moxui.Api.Networks.{network_config_update_handler, network_config_apply_handler}
use moxui.Api.Tasks.{task_delete}
use moxui.Tests.Toy.{toy_claims}
use moxui.Tests.Clusters.{toy_net, parse}

toy_viewer : require_role toy_claims User.operator ≡ err insufficient_role
unfolding require_role parse_role can rank str_eq
toy_viewer = refl

abbrev a : Str
a = codes "a"

abbrev create : CreateVmRequest
create = record {
  vmid = none;
  name = none;
  description = none;
  cores = none;
  sockets = none;
  memory = none;
  balloon = none;
  boot = none;
  bios = none;
  machine = none;
  scsihw = none;
  cpu = none;
  arch = none;
  tags = none;
  template = none;
  onboot = none;
  agent = none;
  storage = none;
  disk_size = none;
  net_model = none;
  net_bridge = none;
  ostype = none;
  ide2 = none;
  start = none;
  numa_enabled = none;
}

abbrev clone : CloneVmRequest
clone = record {
  newid = 7;
  target = none;
  name = none;
  storage = none;
  full = true;
  snapname = none;
  description = none;
  start = none;
  pool = none;
}

abbrev change : UpdateVmConfigRequest
change = record {
  name = none;
  description = none;
  cores = none;
  sockets = none;
  memory = none;
  balloon = none;
  boot = none;
  bios = none;
  machine = none;
  scsihw = none;
  cpu = none;
  tags = none;
  template = none;
  onboot = none;
  agent = none;
  delete = none;
  ciuser = none;
  sshkeys = none;
  ipconfig = none;
  nameserver = none;
  searchdomain = none;
  net = none;
}

abbrev backup : BackupVmRequest
backup = record {
  storage = codes "x";
  mode = codes "x";
  compress = codes "x";
  remove = none;
  notes = none;
  performance = none;
}

abbrev snapshot : CreateSnapshotRequest
snapshot = record { snapname = codes "x"; description = none; vmstate = true }

abbrev resize : ResizeDiskRequest
resize = record { disk = codes "x"; size = codes "x" }

abbrev container : CreateLxcRequest
container = record {
  vmid = none;
  hostname = none;
  rootfs = none;
  storage = none;
  ostemplate = none;
  memory = none;
  cores = none;
  swap = none;
  password = none;
  ssh_public_keys = none;
  net0 = none;
  unprivileged = none;
  start = none;
  extra = [];
}

abbrev group : HaGroupCreateRequest
group = record { nodes = none; comment = none; nofailback = true; restricted = true }

abbrev job : CreateReplicationRequest
job = record {
  source_node = codes "x";
  target = codes "x";
  target_vmid = none;
  rate = none;
  schedule = codes "x";
  comment = none;
}

vm_handlers-Refused_example :
    Refused (vm_action_handler toy_net parse toy_claims a a 7 a none) operator_required
    × Refused (migrate_vm_handler toy_net parse toy_claims a a 7 a true) operator_required
    × Refused (vm_template_handler toy_net parse toy_claims a a 7) operator_required
    × Refused (vm_sendkey_handler toy_net parse toy_claims a a 7 a) operator_required
    × Refused (bulk_start toy_net parse toy_claims []) operator_required
    × Refused (bulk_stop toy_net parse toy_claims []) operator_required
    × Refused (bulk_reboot toy_net parse toy_claims []) operator_required
    × Refused (bulk_delete toy_net parse toy_claims []) operator_required
    × Refused (create_vm_handler toy_net parse toy_claims a a create) operator_required
    × Refused (clone_vm_handler toy_net parse toy_claims a a 7 clone) operator_required
    × Refused (update_vm_config_handler toy_net parse toy_claims a a 7 change) operator_required
    × Refused (create_snapshot_handler toy_net parse toy_claims a a 7 snapshot) operator_required
    × Refused (delete_snapshot_handler toy_net parse toy_claims a a 7 a none) operator_required
    × Refused (rollback_snapshot_handler toy_net parse toy_claims a a 7 a) operator_required
    × Refused (backup_vm_handler toy_net parse toy_claims a a 7 backup) operator_required
    × Refused (resize_disk_handler toy_net parse toy_claims a a 7 resize) operator_required
vm_handlers-Refused_example =
    vm_handlers-Refused toy_net parse toy_claims insufficient_role a a a a a a 7 true none [] create
      clone change backup snapshot none resize toy_viewer

abbrev raw : Str → Result (List ℕ) Str
raw s = ok s

abbrev uploaded : Str → Result UploadResponse Str
uploaded s = ok record { volid = s; msg = none }

cluster_handlers-Refused_example :
    Refused (lxc_action_handler toy_net parse toy_claims a a 7 a none) operator_required
    × Refused (lxc_delete_handler toy_net parse toy_claims a a 7 none) operator_required
    × Refused (lxc_create_handler toy_net parse toy_claims a a container) operator_required
    × Refused (lxc_update_config_handler toy_net parse toy_claims a a 7 none) operator_required
    × Refused (create_ha_group toy_net parse toy_claims a a group) operator_required
    × Refused (delete_ha_group toy_net parse toy_claims a a) operator_required
    × Refused (create_replication_job toy_net parse toy_claims a 7 job) operator_required
    × Refused (delete_replication_job toy_net parse toy_claims a 9) operator_required
    × Refused (delete_storage_content_handler toy_net parse toy_claims a a a a) operator_required
    × Refused (network_config_update_handler toy_net parse toy_claims a a none) operator_required
    × Refused (network_config_apply_handler toy_net parse toy_claims a a) operator_required
    × Refused (task_delete toy_net parse toy_claims a a a) operator_required
    × Refused (storage_upload_handler toy_net raw uploaded toy_claims a a a none) operator_required
cluster_handlers-Refused_example =
    cluster_handlers-Refused toy_net parse parse raw uploaded toy_claims insufficient_role a a a a a
      a a 7 9 none none container none group job toy_viewer
