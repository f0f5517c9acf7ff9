-- ===== src/Proxmox/Client/HaGroups.antt =====
-- src/proxmox/client.rs: the calls about high-availability groups.
use moxui.Prelude.{List, [], ◌∷◌, ◌++◌, Str, codes, Bool, Option, some, Result}
use moxui.Proxmox.Http.{Net}
use moxui.Proxmox.Call.{Call}
use moxui.Proxmox.Types.{flag, present}
use moxui.Proxmox.Client.{get, post_with_query}

unfoldable pub ha_group_fields : Option Str → Option Str → Bool → Bool → List (Str × Option Str)
unfolding flag
ha_group_fields nodes comment nofailback restricted =
    (codes "nofailback", some (flag nofailback))
    ∷ (codes "restricted", some (flag restricted))
    ∷ (codes "nodes", nodes)
    ∷ (codes "comment", comment)
    ∷ []

-- `text` decodes a JSON text.
module _ {W : Type 0} (net : Net W) (text : Str → Result Str Str) where
  unfoldable pub create_ha_group : Str → Option Str → Option Str → Bool → Bool → Call W Str
  unfolding post_with_query present ha_group_fields
  create_ha_group group nodes comment nofailback restricted =
      post_with_query net text (codes "cluster/ha/groups/" ++ group)
        (present (ha_group_fields nodes comment nofailback restricted))

  unfoldable pub update_ha_group : Str → Option Str → Option Str → Bool → Bool → Call W Str
  unfolding post_with_query present ha_group_fields
  update_ha_group group nodes comment nofailback restricted =
      post_with_query net text (codes "cluster/ha/groups/" ++ group)
        (present (ha_group_fields nodes comment nofailback restricted))

  unfoldable pub delete_ha_group : Str → Call W Str
  unfolding post_with_query
  delete_ha_group group =
      post_with_query net text (codes "cluster/ha/groups/" ++ group)
        ((codes "force", codes "1") ∷ [])

module _ {W : Type 0} (net : Net W) where
  module _ {T : Type 0} (parse : Str → Result T Str) where
    unfoldable pub list_ha_groups : Call W T
    unfolding get
    list_ha_groups = get net parse (codes "cluster/ha/groups")
