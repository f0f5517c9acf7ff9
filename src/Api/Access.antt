-- ===== src/Api/Access.antt =====
-- src/api: whom the handlers about containers, groups, replication, storages, networks and tasks
-- refuse.
use moxui.Prelude.{ℕ, List, Str, Option, Result, err, ◌≡◌}
use moxui.Auth.Jwt.{Claims}
use moxui.Auth.User
use moxui.Auth.Middleware.{Refusal, require_role}
use moxui.Proxmox.Http.{Net}
use moxui.Proxmox.Types.Lxc.{LxcActionRequest, DeleteLxcRequest}
use moxui.Api.Handler.Refusal.{operator_required, require_operator_lem, Refused, Refused-lift}
use moxui.Api.Lxcs.{
  JsonValue, CreateLxcRequest, lxc_action_handler, lxc_delete_handler, lxc_create_handler,
  lxc_update_config_handler,
}
use moxui.Api.HaGroups.{HaGroupCreateRequest, create_ha_group, delete_ha_group}
use moxui.Api.Replication.{CreateReplicationRequest, create_replication_job, delete_replication_job}
use moxui.Api.Storages.{UploadResponse, delete_storage_content_handler, storage_upload_handler}
use moxui.Api.Networks.{network_config_update_handler, network_config_apply_handler}
use moxui.Api.Tasks.{task_delete}

module _ {W T : Type 0} (net : Net W) (text : Str → Result Str Str) (value : Str → Result T Str)
    (base64 : Str → Result (List ℕ) Str) (uploaded : Str → Result UploadResponse Str) where
  -- A user whose role does not reach operator is answered Forbidden by each handler that writes to
  -- containers, high-availability groups, replication jobs, storages, networks or tasks, and
  -- nothing is sent to any cluster: the world and the clients are as before.
  pub cluster_handlers-Refused :
      (claims : Claims) (refusal : Refusal) (cluster node action group storage volid upid : Str)
      (vmid id : ℕ) (act : Option LxcActionRequest) (remove : Option DeleteLxcRequest)
      (create : CreateLxcRequest) (config : Option (List (Str × JsonValue)))
      (ha : HaGroupCreateRequest) (job : CreateReplicationRequest)
      → require_role claims User.operator ≡ err refusal
      → Refused (lxc_action_handler net text claims cluster node vmid action act) operator_required
        × Refused (lxc_delete_handler net text claims cluster node vmid remove) operator_required
        × Refused (lxc_create_handler net value claims cluster node create) operator_required
        × Refused
            (lxc_update_config_handler net value claims cluster node vmid config)
            operator_required
        × Refused (create_ha_group net text claims cluster group ha) operator_required
        × Refused (delete_ha_group net text claims cluster group) operator_required
        × Refused (create_replication_job net text claims cluster vmid job) operator_required
        × Refused (delete_replication_job net text claims cluster id) operator_required
        × Refused
            (delete_storage_content_handler net text claims cluster node storage volid)
            operator_required
        × Refused
            (network_config_update_handler net value claims cluster node config)
            operator_required
        × Refused (network_config_apply_handler net value claims cluster node) operator_required
        × Refused (task_delete net value claims cluster node upid) operator_required
        × Refused
            (storage_upload_handler net base64 uploaded claims cluster node storage config)
            operator_required
  unfolding lxc_action_handler lxc_delete_handler lxc_create_handler lxc_update_config_handler
      create_ha_group delete_ha_group create_replication_job delete_replication_job
      delete_storage_content_handler network_config_update_handler network_config_apply_handler
      task_delete storage_upload_handler
  cluster_handlers-Refused claims refusal cluster node action group storage volid upid vmid id act
        remove create config ha job h =
      let e = require_operator_lem net.status_text claims refusal h in
      (
        Refused-lift _ _ _ e,
        Refused-lift _ _ _ e,
        Refused-lift _ _ _ e,
        Refused-lift _ _ _ e,
        Refused-lift _ _ _ e,
        Refused-lift _ _ _ e,
        Refused-lift _ _ _ e,
        Refused-lift _ _ _ e,
        Refused-lift _ _ _ e,
        Refused-lift _ _ _ e,
        Refused-lift _ _ _ e,
        Refused-lift _ _ _ e,
        Refused-lift _ _ _ e,
      )
