-- ===== src/Api/Vms/Actions.antt =====
-- src/api/vms.rs: the handlers that act on one VM. `text` decodes a JSON text.
use moxui.Prelude.{
  ℕ, [], ◌∷◌, ◌++◌, Str, codes, str_eq, Bool, Option, if◌then◌else◌, any, unwrap_or, Result,
}
use moxui.Prelude.Decimal.{decimal}
use moxui.Error.{bad_request}
use moxui.Auth.Jwt.{Claims}
use moxui.Proxmox.Http.{Net}
use moxui.Proxmox.Client.{post, post_with_query}
use moxui.Proxmox.Client.Vms
use moxui.Api.Handler.{Handler, answer, refuse, ◌>>=◌, ◌>>◌, require_operator, lift, on_cluster}
use moxui.Api.Vms.Rows.{VmActionResponse, DeleteVmRequest, default_delete}

-- The actions that are one POST to the VM's status.
unfoldable pub is_status_action : Str → Bool
is_status_action action =
    any (λ a. str_eq a action)
      (codes "start"
        ∷ codes "stop"
        ∷ codes "shutdown"
        ∷ codes "reboot"
        ∷ codes "reset"
        ∷ codes "suspend"
        ∷ codes "resume"
        ∷ [])

unfoldable pub status_path : Str → ℕ → Str → Str
status_path node vmid action =
    codes "nodes/" ++ node ++ codes "/qemu/" ++ decimal vmid ++ codes "/status/" ++ action

module _ {W : Type 0} (net : Net W) (text : Str → Result Str Str) where
  unfoldable pub vm_action : Str → Str → ℕ → Str → Handler W VmActionResponse
  unfolding on_cluster post status_path
  vm_action cluster node vmid action = do
    upid ← on_cluster cluster (post net text (status_path node vmid action))
    answer record { vmid = vmid; action = action; upid = upid }

  unfoldable pub vm_delete : Str → Str → ℕ → DeleteVmRequest → Handler W VmActionResponse
  unfolding on_cluster Vms.delete_vm
  vm_delete cluster node vmid opts = do
    upid ← on_cluster cluster (Vms.delete_vm net text node vmid opts.purge opts.force opts.skiplock)
    answer record { vmid = vmid; action = codes "delete"; upid = upid }

  unfoldable pub vm_action_handler :
      Claims → Str → Str → ℕ → Str → Option DeleteVmRequest → Handler W VmActionResponse
  unfolding require_operator is_status_action vm_action vm_delete default_delete
  vm_action_handler claims cluster node vmid action body = do
    lift (require_operator net.status_text claims)
    if is_status_action action
        then vm_action cluster node vmid action
        else if str_eq action (codes "delete")
        then vm_delete cluster node vmid (unwrap_or body default_delete)
        else refuse (
            bad_request (
              codes "unknown action '"
              ++ action
              ++ codes "'; expected start|stop|shutdown|reboot|reset|suspend|resume|delete"))

  unfoldable pub migrate_vm_handler :
      Claims → Str → Str → ℕ → Str → Bool → Handler W VmActionResponse
  unfolding require_operator on_cluster Vms.migrate_vm
  migrate_vm_handler claims cluster node vmid target online = do
    lift (require_operator net.status_text claims)
    upid ← on_cluster cluster (Vms.migrate_vm net text node vmid target online)
    answer record { vmid = vmid; action = codes "migrate"; upid = upid }

  unfoldable pub vm_template_handler : Claims → Str → Str → ℕ → Handler W VmActionResponse
  unfolding require_operator on_cluster post
  vm_template_handler claims cluster node vmid = do
    lift (require_operator net.status_text claims)
    upid ← on_cluster cluster (
        post net text
          (codes "nodes/" ++ node ++ codes "/qemu/" ++ decimal vmid ++ codes "/template"))
    answer record { vmid = vmid; action = codes "template"; upid = upid }

  unfoldable pub vm_sendkey_handler : Claims → Str → Str → ℕ → Str → Handler W VmActionResponse
  unfolding require_operator on_cluster post_with_query
  vm_sendkey_handler claims cluster node vmid key = do
    lift (require_operator net.status_text claims)
    upid ← on_cluster cluster (
        post_with_query net text
          (codes "nodes/" ++ node ++ codes "/qemu/" ++ decimal vmid ++ codes "/sendkey")
          ((codes "key", key) ∷ []))
    answer record { vmid = vmid; action = codes "sendkey"; upid = upid }
