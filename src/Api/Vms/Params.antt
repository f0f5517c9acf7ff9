-- ===== src/Api/Vms/Params.antt =====
-- src/api/vms.rs: the queries made of the requests that write to a VM.
use moxui.Prelude.{List, [], ◌∷◌, ◌++◌, Str, codes, some, unwrap_or}
use moxui.Prelude.Decimal.{decimal}
use mathlib.Core.Option
use moxui.Proxmox.Types.{flag, present}
use moxui.Proxmox.Types.Vm.{CreateVmRequest, CloneVmRequest, UpdateVmConfigRequest, BackupVmRequest}

unfoldable pub create_vm_params : CreateVmRequest → List (Str × Str)
create_vm_params req = present (
    (codes "vmid", Option.map decimal req.vmid)
    ∷ (codes "name", req.name)
    ∷ (codes "description", req.description)
    ∷ (codes "cores", Option.map decimal req.cores)
    ∷ (codes "sockets", Option.map decimal req.sockets)
    ∷ (codes "memory", Option.map decimal req.memory)
    ∷ (codes "balloon", Option.map decimal req.balloon)
    ∷ (codes "boot", req.boot)
    ∷ (codes "bios", req.bios)
    ∷ (codes "machine", req.machine)
    ∷ (codes "scsihw", req.scsihw)
    ∷ (codes "cpu", req.cpu)
    ∷ (codes "arch", req.arch)
    ∷ (codes "tags", req.tags)
    ∷ (codes "template", Option.map decimal req.template)
    ∷ (codes "onboot", Option.map decimal req.onboot)
    ∷ (codes "agent", Option.map decimal req.agent)
    ∷ (codes "storage", req.storage)
    ∷ (codes "sata0", Option.map (λ v. v ++ codes ":" ++ v) req.disk_size)
    ∷ (
      codes "net0",
      Option.map (λ v. v ++ codes ",bridge=" ++ unwrap_or req.net_bridge (codes "vmbr0"))
          req.net_model,
    )
    ∷ (codes "ostype", req.ostype)
    ∷ (codes "ide2", req.ide2)
    ∷ (codes "start", Option.map flag req.start)
    ∷ (codes "numa", Option.map flag req.numa_enabled)
    ∷ [])

unfoldable pub clone_vm_params : CloneVmRequest → List (Str × Str)
clone_vm_params req = present (
    (codes "newid", some (decimal req.newid))
    ∷ (codes "target", req.target)
    ∷ (codes "name", req.name)
    ∷ (codes "storage", req.storage)
    ∷ (codes "full", some (flag req.full))
    ∷ (codes "snapname", req.snapname)
    ∷ (codes "description", req.description)
    ∷ (codes "start", Option.map flag req.start)
    ∷ (codes "pool", req.pool)
    ∷ [])

unfoldable pub update_vm_config_params : UpdateVmConfigRequest → List (Str × Str)
update_vm_config_params req = present (
    (codes "name", req.name)
    ∷ (codes "description", req.description)
    ∷ (codes "cores", Option.map decimal req.cores)
    ∷ (codes "sockets", Option.map decimal req.sockets)
    ∷ (codes "memory", Option.map decimal req.memory)
    ∷ (codes "balloon", Option.map decimal req.balloon)
    ∷ (codes "boot", req.boot)
    ∷ (codes "bios", req.bios)
    ∷ (codes "machine", req.machine)
    ∷ (codes "scsihw", req.scsihw)
    ∷ (codes "cpu", req.cpu)
    ∷ (codes "tags", req.tags)
    ∷ (codes "template", Option.map decimal req.template)
    ∷ (codes "onboot", Option.map decimal req.onboot)
    ∷ (codes "agent", Option.map decimal req.agent)
    ∷ (codes "delete", req.delete)
    ∷ (codes "ciuser", req.ciuser)
    ∷ (codes "sshkeys", req.sshkeys)
    ∷ (codes "ipconfig", req.ipconfig)
    ∷ (codes "nameserver", req.nameserver)
    ∷ (codes "searchdomain", req.searchdomain)
    ∷ (codes "net0", req.net)
    ∷ [])

unfoldable pub backup_vm_params : BackupVmRequest → List (Str × Str)
backup_vm_params req = present (
    (codes "storage", some req.storage)
    ∷ (codes "mode", some req.mode)
    ∷ (codes "compress", some req.compress)
    ∷ (codes "remove", Option.map flag req.remove)
    ∷ (codes "notes", req.notes)
    ∷ (codes "performance", req.performance)
    ∷ [])
