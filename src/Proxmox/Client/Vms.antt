-- ===== src/Proxmox/Client/Vms.antt =====
-- src/proxmox/client.rs: the calls about VMs.
use moxui.Prelude.{ℕ, List, [], ◌∷◌, ◌++◌, Str, codes, Bool, Result}
use moxui.Prelude.Decimal.{decimal}
use moxui.Proxmox.Http.{Net}
use moxui.Proxmox.Call.{Call, timeout}
use moxui.Proxmox.Types.{VmResource, flag}
use moxui.Proxmox.Client.{get, post, post_with_query, post_no_default, list_vms_timeout_secs}

-- `text` decodes a JSON text.
module _ {W : Type 0} (net : Net W) (text : Str → Result Str Str) where
  unfoldable pub delete_vm : Str → ℕ → Bool → Bool → Bool → Call W Str
  unfolding post_with_query
  delete_vm node vmid purge force skiplock =
      post_with_query net text (codes "nodes/" ++ node ++ codes "/qemu/" ++ decimal vmid) (
        (codes "purge", flag purge)
        ∷ (codes "force", flag force)
        ∷ (codes "skiplock", flag skiplock)
        ∷ [])

  unfoldable pub migrate_vm : Str → ℕ → Str → Bool → Call W Str
  unfolding post_with_query
  migrate_vm node vmid target online =
      post_with_query net text
        (codes "nodes/" ++ node ++ codes "/qemu/" ++ decimal vmid ++ codes "/migrate")
        ((codes "target", target) ∷ (codes "online", flag online) ∷ [])

  unfoldable pub create_vm : Str → List (Str × Str) → Call W Str
  unfolding post_with_query
  create_vm node params = post_with_query net text (codes "nodes/" ++ node ++ codes "/qemu") params

  unfoldable pub clone_vm : Str → ℕ → List (Str × Str) → Call W Str
  unfolding post_with_query
  clone_vm node vmid params =
      post_with_query net text
        (codes "nodes/" ++ node ++ codes "/qemu/" ++ decimal vmid ++ codes "/clone") params

  unfoldable pub update_vm_config : Str → ℕ → List (Str × Str) → Call W Str
  unfolding post_with_query
  update_vm_config node vmid params =
      post_with_query net text
        (codes "nodes/" ++ node ++ codes "/qemu/" ++ decimal vmid ++ codes "/config") params

  unfoldable pub backup_vm : Str → ℕ → List (Str × Str) → Call W Str
  unfolding post_with_query
  backup_vm node vmid params =
      post_with_query net text
        (codes "nodes/" ++ node ++ codes "/qemu/" ++ decimal vmid ++ codes "/backup") params

  unfoldable pub resize_disk : Str → ℕ → Str → Str → Call W Str
  unfolding post_with_query
  resize_disk node vmid disk size =
      post_with_query net text
        (codes "nodes/" ++ node ++ codes "/qemu/" ++ decimal vmid ++ codes "/resize")
        ((codes "disk", disk) ∷ (codes "size", size) ∷ [])

  unfoldable pub reset_vm : Str → ℕ → Call W Str
  unfolding post
  reset_vm node vmid =
      post net text
        (codes "nodes/" ++ node ++ codes "/qemu/" ++ decimal vmid ++ codes "/status/reset")

  unfoldable pub suspend_vm : Str → ℕ → Call W Str
  unfolding post
  suspend_vm node vmid =
      post net text
        (codes "nodes/" ++ node ++ codes "/qemu/" ++ decimal vmid ++ codes "/status/suspend")

  unfoldable pub resume_vm : Str → ℕ → Call W Str
  unfolding post
  resume_vm node vmid =
      post net text
        (codes "nodes/" ++ node ++ codes "/qemu/" ++ decimal vmid ++ codes "/status/resume")

  unfoldable pub template_convert : Str → ℕ → Call W Str
  unfolding post
  template_convert node vmid =
      post net text (codes "nodes/" ++ node ++ codes "/qemu/" ++ decimal vmid ++ codes "/template")

  unfoldable pub sendkey : Str → ℕ → Str → Call W Str
  unfolding post_no_default
  sendkey node vmid key =
      post_no_default net text
        (codes "nodes/" ++ node ++ codes "/qemu/" ++ decimal vmid ++ codes "/sendkey")
        ((codes "key", key) ∷ [])

module _ {W : Type 0} (net : Net W) where
  module _ {T : Type 0} (parse : Str → Result T Str) where
    unfoldable pub vm_config : Str → ℕ → Call W T
    unfolding get
    vm_config node vmid =
        get net parse (codes "nodes/" ++ node ++ codes "/qemu/" ++ decimal vmid ++ codes "/config")

    unfoldable pub vm_rrddata : Str → ℕ → Str → Call W T
    unfolding get
    vm_rrddata node vmid timeframe = get net parse (
        codes "nodes/"
        ++ node
        ++ codes "/qemu/"
        ++ decimal vmid
        ++ codes "/rrddata?timeframe="
        ++ timeframe)

    unfoldable pub vnc_proxy : Str → ℕ → Call W T
    unfolding post_no_default
    vnc_proxy node vmid =
        post_no_default net parse
          (codes "nodes/" ++ node ++ codes "/qemu/" ++ decimal vmid ++ codes "/vncproxy") []

  unfoldable pub list_vms : (Str → Result (List VmResource) Str) → Call W (List VmResource)
  unfolding get timeout
  list_vms parse =
      timeout net list_vms_timeout_secs (codes "list_vms")
        (get net parse (codes "cluster/resources?type=vm"))
