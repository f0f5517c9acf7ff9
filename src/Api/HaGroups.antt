-- ===== src/Api/HaGroups.antt =====
-- src/api/hagroups.rs: the handlers about high-availability groups.
use moxui.Prelude.{ℕ, List, Str, codes, Bool, Option, Result}
use moxui.Auth.Jwt.{Claims}
use moxui.Proxmox.Http.{Net}
use moxui.Proxmox.Types.{HaGroup}
use moxui.Proxmox.Client.HaGroups
use moxui.Api.Handler.{Handler, answer, ◌>>=◌, ◌>>◌, require_operator, lift, on_cluster}
use moxui.Api.Listing.{Listing, gather}
use moxui.Api.Gathered.{Gathered, pass_on}

pub record HaGroupRow : Type 0 where
  pub cluster : Str
  pub group : Str
  pub nodes : Option Str
  pub kind : Option Str
  pub comment : Option Str
  pub nofailback : Option ℕ
  pub restricted : Option ℕ

unfoldable pub ha_group_row : Str → HaGroup → HaGroupRow
ha_group_row cluster g = record {
  cluster = cluster;
  group = g.group;
  nodes = g.nodes;
  kind = g.kind;
  comment = g.comment;
  nofailback = g.nofailback;
  restricted = g.restricted;
}

pub record HaGroupCreateRequest : Type 0 where
  pub nodes : Option Str
  pub comment : Option Str
  pub nofailback : Bool
  pub restricted : Bool

pub record HaGroupActionResponse : Type 0 where
  pub cluster : Str
  pub group : Str
  pub action : Str
  pub result : Str

module _ {W : Type 0} (net : Net W) where
  unfoldable pub list_ha_groups : (Str → Result (List HaGroup) Str) → Handler W (Listing HaGroupRow)
  unfolding gather HaGroups.list_ha_groups ha_group_row
  list_ha_groups parse = gather ha_group_row (HaGroups.list_ha_groups net parse)

  -- `text` decodes a JSON text.
  module _ (text : Str → Result Str Str) where
    unfoldable pub create_ha_group :
        Claims → Str → Str → HaGroupCreateRequest → Handler W HaGroupActionResponse
    unfolding require_operator on_cluster HaGroups.create_ha_group
    create_ha_group claims cluster group body = do
      lift (require_operator net.status_text claims)
      result ← on_cluster cluster (
          HaGroups.create_ha_group net text group body.nodes body.comment body.nofailback
            body.restricted)
      answer record { cluster = cluster; group = group; action = codes "create"; result = result }

    unfoldable pub delete_ha_group : Claims → Str → Str → Handler W HaGroupActionResponse
    unfolding require_operator on_cluster HaGroups.delete_ha_group
    delete_ha_group claims cluster group = do
      lift (require_operator net.status_text claims)
      result ← on_cluster cluster (HaGroups.delete_ha_group net text group)
      answer record { cluster = cluster; group = group; action = codes "delete"; result = result }

  unfoldable pub ha_status : {T : Type 0} → (Str → Result T Str) → Handler W (Gathered T)
  unfolding pass_on
  ha_status value = pass_on net value (codes "cluster/ha/status")
