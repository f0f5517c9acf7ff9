-- ===== src/Proxmox/Client/Snapshots.antt =====
-- src/proxmox/client.rs: the calls about snapshots.
use moxui.Prelude.{ℕ, List, [], ◌∷◌, ◌++◌, Str, codes, Bool, Result}
use moxui.Prelude.Decimal.{decimal}
use moxui.Proxmox.Http.{Net}
use moxui.Proxmox.Call.{Call}
use moxui.Proxmox.Types.{flag}
use moxui.Proxmox.Client.{get, post_with_query}

-- `text` decodes a JSON text.
module _ {W : Type 0} (net : Net W) (text : Str → Result Str Str) where
  unfoldable pub create_snapshot : Str → ℕ → List (Str × Str) → Call W Str
  unfolding post_with_query
  create_snapshot node vmid params =
      post_with_query net text
        (codes "nodes/" ++ node ++ codes "/qemu/" ++ decimal vmid ++ codes "/snapshot") params

  unfoldable pub delete_snapshot : Str → ℕ → Str → Bool → Call W Str
  unfolding post_with_query
  delete_snapshot node vmid snapname force =
      post_with_query net text
        (codes "nodes/" ++ node ++ codes "/qemu/" ++ decimal vmid ++ codes "/snapshot/" ++ snapname)
        ((codes "force", flag force) ∷ [])

  unfoldable pub rollback_snapshot : Str → ℕ → Str → Call W Str
  unfolding post_with_query
  rollback_snapshot node vmid snapname =
      post_with_query net text
        (codes "nodes/"
          ++ node
          ++ codes "/qemu/"
          ++ decimal vmid
          ++ codes "/snapshot/"
          ++ snapname
          ++ codes "/rollback")
        []

module _ {W : Type 0} (net : Net W) where
  module _ {T : Type 0} (parse : Str → Result T Str) where
    unfoldable pub list_snapshots : Str → ℕ → Call W T
    unfolding get
    list_snapshots node vmid =
        get net parse
          (codes "nodes/" ++ node ++ codes "/qemu/" ++ decimal vmid ++ codes "/snapshot")
