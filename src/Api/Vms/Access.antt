-- ===== src/Api/Vms/Access.antt =====
-- src/api/vms.rs: whom the handlers about VMs refuse.
use moxui.Prelude.{ℕ, List, Str, Bool, Option, Result, err, ◌≡◌}
use moxui.Auth.Jwt.{Claims}
use moxui.Auth.User
use moxui.Auth.User.{parse_role, can}
use moxui.Auth.Middleware.{Refusal, require_role}
use moxui.Proxmox.Http.{Net}
use moxui.Proxmox.Types.Vm.{
  CreateVmRequest, CloneVmRequest, UpdateVmConfigRequest, BackupVmRequest, CreateSnapshotRequest,
  DeleteSnapshotRequest, ResizeDiskRequest,
}
use moxui.Api.Handler.Refusal.{operator_required, require_operator_lem, Refused, Refused-lift}
use moxui.Api.Vms.Rows.{DeleteVmRequest}
use moxui.Api.Vms.Actions.{
  vm_action_handler, migrate_vm_handler, vm_template_handler, vm_sendkey_handler,
}
use moxui.Api.Vms.Writes.{
  create_vm_handler, clone_vm_handler, update_vm_config_handler, create_snapshot_handler,
  delete_snapshot_handler, rollback_snapshot_handler, backup_vm_handler, resize_disk_handler,
}
use moxui.Api.Vms.Bulk.{BulkVmRef, bulk_start, bulk_stop, bulk_reboot, bulk_delete}

module _ {W : Type 0} (net : Net W) (text : Str → Result Str Str) where
  -- A user whose role does not reach operator is answered Forbidden by each handler that acts on VMs
  -- or writes their configuration, snapshots, backups or disks, and nothing is sent to any cluster:
  -- the world and the clients are as before.
  pub vm_handlers-Refused :
      (claims : Claims) (refusal : Refusal) (cluster node action target key snapname : Str)
      (vmid : ℕ) (online : Bool) (body : Option DeleteVmRequest) (vms : List BulkVmRef)
      (create : CreateVmRequest) (clone : CloneVmRequest) (update : UpdateVmConfigRequest)
      (backup : BackupVmRequest) (snapshot : CreateSnapshotRequest)
      (remove : Option DeleteSnapshotRequest) (resize : ResizeDiskRequest)
      → require_role claims User.operator ≡ err refusal
      → Refused (vm_action_handler net text claims cluster node vmid action body) operator_required
        × Refused
            (migrate_vm_handler net text claims cluster node vmid target online)
            operator_required
        × Refused (vm_template_handler net text claims cluster node vmid) operator_required
        × Refused (vm_sendkey_handler net text claims cluster node vmid key) operator_required
        × Refused (bulk_start net text claims vms) operator_required
        × Refused (bulk_stop net text claims vms) operator_required
        × Refused (bulk_reboot net text claims vms) operator_required
        × Refused (bulk_delete net text claims vms) operator_required
        × Refused (create_vm_handler net text claims cluster node create) operator_required
        × Refused (clone_vm_handler net text claims cluster node vmid clone) operator_required
        × Refused
            (update_vm_config_handler net text claims cluster node vmid update)
            operator_required
        × Refused
            (create_snapshot_handler net text claims cluster node vmid snapshot)
            operator_required
        × Refused
            (delete_snapshot_handler net text claims cluster node vmid snapname remove)
            operator_required
        × Refused
            (rollback_snapshot_handler net text claims cluster node vmid snapname)
            operator_required
        × Refused (backup_vm_handler net text claims cluster node vmid backup) operator_required
        × Refused (resize_disk_handler net text claims cluster node vmid resize) operator_required
  unfolding vm_action_handler migrate_vm_handler vm_template_handler vm_sendkey_handler bulk_start
      bulk_stop bulk_reboot bulk_delete create_vm_handler clone_vm_handler update_vm_config_handler
      create_snapshot_handler delete_snapshot_handler rollback_snapshot_handler backup_vm_handler
      resize_disk_handler
  vm_handlers-Refused claims refusal cluster node action target key snapname vmid online body vms
        create clone update backup snapshot remove resize h =
      let e = require_operator_lem net.status_text claims refusal h in
      (
        Refused-lift _ _ _ e,
        Refused-lift _ _ _ e,
        Refused-lift _ _ _ e,
        Refused-lift _ _ _ e,
        Refused-lift _ _ _ e,
        Refused-lift _ _ _ e,
        Refused-lift _ _ _ e,
        Refused-lift _ _ _ e,
        Refused-lift _ _ _ e,
        Refused-lift _ _ _ e,
        Refused-lift _ _ _ e,
        Refused-lift _ _ _ e,
        Refused-lift _ _ _ e,
        Refused-lift _ _ _ e,
        Refused-lift _ _ _ e,
        Refused-lift _ _ _ e,
      )
