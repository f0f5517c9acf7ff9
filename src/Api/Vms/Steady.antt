-- ===== src/Api/Vms/Steady.antt =====
-- src/proxmox/client.rs: the deletion of a VM ends with a result.
use moxui.Prelude.{ℕ, codes, ◌++◌, Str, Bool, Result}
use moxui.Prelude.Decimal.{decimal}
use moxui.Proxmox.Http.{Net}
use moxui.Proxmox.Call.Steady.{Steady}
use moxui.Proxmox.Client.Steady.{post_with_query-Steady}
use moxui.Proxmox.Client.Vms.{delete_vm}

module _ {W : Type 0} (net : Net W) (text : Str → Result Str Str) where
  pub delete_vm-Steady :
      (node : Str) (vmid : ℕ) (purge force skiplock : Bool)
      → Steady (delete_vm net text node vmid purge force skiplock)
  unfolding delete_vm
  delete_vm-Steady node vmid purge force skiplock =
      post_with_query-Steady net text (codes "nodes/" ++ node ++ codes "/qemu/" ++ decimal vmid) _
