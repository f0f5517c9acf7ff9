-- ===== src/Api/Vms/Writes.antt =====
-- src/api/vms.rs: the handlers that write a VM's configuration, snapshots, backups and disks.
-- `text` decodes a JSON text.
use moxui.Prelude.{ℕ, List, [], ◌∷◌, Str, codes, false, Option, none, some, Result}
use moxui.Auth.Jwt.{Claims}
use moxui.Proxmox.Http.{Net}
use moxui.Proxmox.Types.{flag, present}
use moxui.Proxmox.Types.Vm.{
  CreateVmRequest, CloneVmRequest, UpdateVmConfigRequest, BackupVmRequest, CreateSnapshotRequest,
  DeleteSnapshotRequest, ResizeDiskRequest,
}
use moxui.Proxmox.Client.Vms
use moxui.Proxmox.Client.Snapshots
use moxui.Api.Handler.{
  Answer, number, string, Handler, answer, ◌>>=◌, ◌>>◌, require_operator, lift, on_cluster,
}
use moxui.Api.Vms.Params.{
  create_vm_params, clone_vm_params, update_vm_config_params, backup_vm_params,
}

unfoldable pub snapshot_params : CreateSnapshotRequest → List (Str × Str)
unfolding present flag
snapshot_params body = present (
    (codes "snapname", some body.snapname)
    ∷ (codes "vmstate", some (flag body.vmstate))
    ∷ (codes "description", body.description)
    ∷ [])

module _ {W : Type 0} (net : Net W) (text : Str → Result Str Str) where
  unfoldable pub create_vm_handler : Claims → Str → Str → CreateVmRequest → Handler W Answer
  unfolding require_operator on_cluster Vms.create_vm create_vm_params
  create_vm_handler claims cluster node body = do
    lift (require_operator net.status_text claims)
    upid ← on_cluster cluster (Vms.create_vm net text node (create_vm_params body))
    answer (
        (codes "vmid_str", string upid)
        ∷ (codes "node", string node)
        ∷ (codes "cluster", string cluster)
        ∷ [])

  unfoldable pub clone_vm_handler : Claims → Str → Str → ℕ → CloneVmRequest → Handler W Answer
  unfolding require_operator on_cluster Vms.clone_vm clone_vm_params
  clone_vm_handler claims cluster node vmid body = do
    lift (require_operator net.status_text claims)
    upid ← on_cluster cluster (Vms.clone_vm net text node vmid (clone_vm_params body))
    answer (
        (codes "vmid", number vmid)
        ∷ (codes "newid", number body.newid)
        ∷ (codes "upid", string upid)
        ∷ (codes "cluster", string cluster)
        ∷ [])

  unfoldable pub update_vm_config_handler :
      Claims → Str → Str → ℕ → UpdateVmConfigRequest → Handler W Answer
  unfolding require_operator on_cluster Vms.update_vm_config update_vm_config_params
  update_vm_config_handler claims cluster node vmid body = do
    lift (require_operator net.status_text claims)
    upid ←
        on_cluster cluster (Vms.update_vm_config net text node vmid (update_vm_config_params body))
    answer (
        (codes "vmid", number vmid)
        ∷ (codes "upid", string upid)
        ∷ (codes "cluster", string cluster)
        ∷ [])

  unfoldable pub create_snapshot_handler :
      Claims → Str → Str → ℕ → CreateSnapshotRequest → Handler W Answer
  unfolding require_operator on_cluster Snapshots.create_snapshot snapshot_params
  create_snapshot_handler claims cluster node vmid body = do
    lift (require_operator net.status_text claims)
    upid ← on_cluster cluster (Snapshots.create_snapshot net text node vmid (snapshot_params body))
    answer (
        (codes "vmid", number vmid)
        ∷ (codes "snapname", string body.snapname)
        ∷ (codes "upid", string upid)
        ∷ (codes "cluster", string cluster)
        ∷ [])

  unfoldable pub delete_snapshot_handler :
      Claims → Str → Str → ℕ → Str → Option DeleteSnapshotRequest → Handler W Answer
  unfolding require_operator on_cluster Snapshots.delete_snapshot
  delete_snapshot_handler claims cluster node vmid snapname body = do
    lift (require_operator net.status_text claims)
    upid ← on_cluster cluster (
        Snapshots.delete_snapshot net text node vmid snapname
          (elim body [ none ↦ false | some b ↦ b.force ]))
    answer (
        (codes "vmid", number vmid)
        ∷ (codes "snapname", string snapname)
        ∷ (codes "upid", string upid)
        ∷ (codes "cluster", string cluster)
        ∷ [])

  unfoldable pub rollback_snapshot_handler : Claims → Str → Str → ℕ → Str → Handler W Answer
  unfolding require_operator on_cluster Snapshots.rollback_snapshot
  rollback_snapshot_handler claims cluster node vmid snapname = do
    lift (require_operator net.status_text claims)
    upid ← on_cluster cluster (Snapshots.rollback_snapshot net text node vmid snapname)
    answer (
        (codes "vmid", number vmid)
        ∷ (codes "snapname", string snapname)
        ∷ (codes "upid", string upid)
        ∷ (codes "cluster", string cluster)
        ∷ [])

  unfoldable pub backup_vm_handler : Claims → Str → Str → ℕ → BackupVmRequest → Handler W Answer
  unfolding require_operator on_cluster Vms.backup_vm backup_vm_params
  backup_vm_handler claims cluster node vmid body = do
    lift (require_operator net.status_text claims)
    upid ← on_cluster cluster (Vms.backup_vm net text node vmid (backup_vm_params body))
    answer (
        (codes "vmid", number vmid)
        ∷ (codes "upid", string upid)
        ∷ (codes "cluster", string cluster)
        ∷ [])

  unfoldable pub resize_disk_handler : Claims → Str → Str → ℕ → ResizeDiskRequest → Handler W Answer
  unfolding require_operator on_cluster Vms.resize_disk
  resize_disk_handler claims cluster node vmid body = do
    lift (require_operator net.status_text claims)
    upid ← on_cluster cluster (Vms.resize_disk net text node vmid body.disk body.size)
    answer (
        (codes "vmid", number vmid)
        ∷ (codes "disk", string body.disk)
        ∷ (codes "size", string body.size)
        ∷ (codes "upid", string upid)
        ∷ (codes "cluster", string cluster)
        ∷ [])
