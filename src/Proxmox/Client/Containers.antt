-- ===== src/Proxmox/Client/Containers.antt =====
-- src/proxmox/client.rs: the calls about containers.
use moxui.Prelude.{ℕ, List, [], ◌∷◌, ◌++◌, Str, codes, str_eq, Bool, keep_if, Result}
use moxui.Prelude.Decimal.{decimal}
use moxui.Proxmox.Http.{Net}
use moxui.Proxmox.Call.{Call, done, ◌>>=◌, timeout}
use moxui.Proxmox.Types.{VmResource, flag}
use moxui.Proxmox.Types.Lxc.{CreateLxcRequest, LxcConfig, create_lxc_params, lxc_config_params}
use moxui.Proxmox.Client.{get, post_with_query, put_with_query, list_vms_timeout_secs}

-- `text` decodes a JSON text.
module _ {W : Type 0} (net : Net W) (text : Str → Result Str Str) where
  unfoldable pub lxc_action : Str → ℕ → Str → List (Str × Str) → Call W Str
  unfolding post_with_query
  lxc_action node vmid action params =
      post_with_query net text
        (codes "nodes/" ++ node ++ codes "/lxc/" ++ decimal vmid ++ codes "/status/" ++ action)
        params

  unfoldable pub lxc_delete : Str → ℕ → Bool → Bool → Bool → Call W Str
  unfolding post_with_query
  lxc_delete node vmid purge force skiplock =
      post_with_query net text (codes "nodes/" ++ node ++ codes "/lxc/" ++ decimal vmid) (
        (codes "purge", flag purge)
        ∷ (codes "force", flag force)
        ∷ (codes "skiplock", flag skiplock)
        ∷ [])

  unfoldable pub lxc_create : Str → CreateLxcRequest → Call W Str
  unfolding post_with_query create_lxc_params
  lxc_create node req =
      post_with_query net text (codes "nodes/" ++ node ++ codes "/lxc") (create_lxc_params req)

  unfoldable pub lxc_update_config : Str → ℕ → LxcConfig → Call W Str
  unfolding put_with_query lxc_config_params
  lxc_update_config node vmid config =
      put_with_query net text
        (codes "nodes/" ++ node ++ codes "/lxc/" ++ decimal vmid ++ codes "/config")
        (lxc_config_params config)

module _ {W : Type 0} (net : Net W) where
  unfoldable pub list_lxcs : (Str → Result (List VmResource) Str) → Call W (List VmResource)
  unfolding get timeout
  list_lxcs parse = do
    all ←
        timeout net list_vms_timeout_secs (codes "list_lxcs")
          (get net parse (codes "cluster/resources?type=vm"))
    done (keep_if (λ r. str_eq r.kind (codes "lxc")) all)

  module _ {T : Type 0} (parse : Str → Result T Str) where
    unfoldable pub lxc_detail : Str → ℕ → Call W T
    unfolding get timeout
    lxc_detail node vmid = timeout net list_vms_timeout_secs (codes "lxc_detail") (
        get net parse
          (codes "nodes/" ++ node ++ codes "/lxc/" ++ decimal vmid ++ codes "/status/current"))
