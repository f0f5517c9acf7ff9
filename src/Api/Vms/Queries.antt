-- ===== src/Api/Vms/Queries.antt =====
-- src/api/vms.rs and src/proxmox/types.rs: the queries of the requests.
use moxui.Prelude.{refl, str_eq}
use moxui.Prelude.Map.{Unique}
use moxui.Proxmox.Types.Vm.{CreateVmRequest, CloneVmRequest, UpdateVmConfigRequest, BackupVmRequest}
use moxui.Proxmox.Types.Lxc.{CreateLxcRequest, LxcConfig, create_lxc_params, lxc_config_params}
use moxui.Proxmox.Types.Queries.{present-Unique}
use moxui.Api.Vms.Params.{
  create_vm_params, clone_vm_params, update_vm_config_params, backup_vm_params,
}

-- Whatever the fields of the requests, none of the six queries made of them names a parameter twice.
pub params-Unique :
    (create : CreateVmRequest) (clone : CloneVmRequest) (update : UpdateVmConfigRequest)
    (backup : BackupVmRequest) (lxc : CreateLxcRequest) (config : LxcConfig)
    → Unique (create_vm_params create)
      × Unique (clone_vm_params clone)
      × Unique (update_vm_config_params update)
      × Unique (backup_vm_params backup)
      × Unique (create_lxc_params lxc)
      × Unique (lxc_config_params config)
unfolding str_eq create_vm_params clone_vm_params update_vm_config_params backup_vm_params
    create_lxc_params lxc_config_params
params-Unique create clone update backup lxc config = (
  present-Unique _ refl,
  present-Unique _ refl,
  present-Unique _ refl,
  present-Unique _ refl,
  present-Unique _ refl,
  present-Unique _ refl,
)
