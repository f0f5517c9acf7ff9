-- ===== src/Api/Networks.antt =====
-- src/api/networks.rs: the handlers about network interfaces.
pub mod Vlans
use moxui.Prelude.{
  ℕ, map, List, [], ◌∷◌, ◌++◌, Str, codes, str_eq, Bool, Option, none, some, Result, ok, err,
  if◌then◌else◌,
}
use moxui.Prelude.Map
use moxui.Error.{AppError, to_string}
use moxui.Auth.Jwt.{Claims}
use moxui.Proxmox.Http.{Net}
use moxui.Proxmox.Call.{Call}
use moxui.Proxmox.Types.{NodeNetwork}
use moxui.Proxmox.Client.{get, post_with_query}
use moxui.Proxmox.Client.Cluster
use moxui.Api.Handler.{
  Handler, Answer, string, answer, ◌>>=◌, ◌>>◌, require_operator, lift, on_cluster, on_each,
}
use moxui.Api.Listing.{Listing, gather}
use moxui.Api.Lxcs.{JsonValue, config_params}

pub record NetworkRow : Type 0 where
  pub cluster : Str
  pub node : Str
  pub iface : Str
  pub kind : Str
  pub active : Option ℕ
  pub address : Option Str
  pub gateway : Option Str
  pub address6 : Option Str
  pub gateway6 : Option Str
  pub bridge_ports : Option Str
  pub iface_vlan_raw_device : Option Str
  pub vlan_id : Option ℕ
  pub autostart : Option ℕ
  pub comments : Option Str

-- The gathered rows have the cluster's name in place of the node's.
unfoldable pub network_row : Str → NodeNetwork → NetworkRow
network_row cluster n = record {
  cluster = cluster;
  node = cluster;
  iface = n.iface;
  kind = n.kind;
  active = n.active;
  address = n.address;
  gateway = n.gateway;
  address6 = n.address6;
  gateway6 = n.gateway6;
  bridge_ports = n.bridge_ports;
  iface_vlan_raw_device = n.iface_vlan_raw_device;
  vlan_id = n.vlan_id;
  autostart = n.autostart;
  comments = n.comments;
}

pub record VlanRow : Type 0 where
  pub cluster : Str
  pub iface : Str
  pub vlan_id : Option ℕ
  pub raw_device : Option Str
  pub active : Option ℕ
  pub address : Option Str
  pub comments : Option Str

unfoldable pub vlan_row : Str → NodeNetwork → VlanRow
vlan_row cluster n = record {
  cluster = cluster;
  iface = n.iface;
  vlan_id = n.vlan_id;
  raw_device = n.iface_vlan_raw_device;
  active = n.active;
  address = n.address;
  comments = n.comments;
}

-- The loop over one cluster's interfaces.
unfoldable pub push_vlans : Str → List NodeNetwork → List VlanRow → List VlanRow
unfolding vlan_row
push_vlans cluster [] vlans = vlans
push_vlans cluster (n ∷ list) vlans =
    push_vlans cluster list
      (if str_eq n.kind (codes "vlan") then vlans ++ (vlan_row cluster n ∷ []) else vlans)

-- The loop over the clusters' results.
unfoldable pub merge_vlans :
    List (Str × Result (List NodeNetwork) AppError) → Listing VlanRow → Listing VlanRow
unfolding push_vlans to_string Map.insert
merge_vlans [] acc = acc
merge_vlans ((name, ok list) ∷ results) acc =
    merge_vlans results record acc { rows = push_vlans name list acc.rows }
merge_vlans ((name, err e) ∷ results) acc =
    merge_vlans results record acc { errors = Map.insert name (to_string e) acc.errors }

module _ {W : Type 0} (net : Net W) where
  module _ (parse : Str → Result (List NodeNetwork) Str) where
    unfoldable pub list_networks : Handler W (Listing NetworkRow)
    unfolding gather get network_row
    list_networks = gather network_row (get net parse (codes "network"))

    unfoldable pub node_networks : Str → Str → Handler W (List NodeNetwork)
    unfolding on_cluster Cluster.list_networks
    node_networks cluster node = on_cluster cluster (Cluster.list_networks net parse node)

    unfoldable pub list_vlans : Handler W (Listing VlanRow)
    unfolding on_each get merge_vlans
    list_vlans w cs =
        let (w', cs', results) = on_each (get net parse (codes "network")) w cs in
        (
          w',
          cs',
          elim results [
            | none ↦ none
            | some rs ↦ some (ok (merge_vlans rs record { rows = []; errors = [] }))
          ],
        )

  -- The answers are the objects' texts and their `result`.
  module _ {T : Type 0} (value : Str → Result T Str) where
    unfoldable pub network_config_update_handler :
        Claims → Str → Str → Option (List (Str × JsonValue)) → Handler W (Answer × T)
    unfolding require_operator on_cluster post_with_query config_params
    network_config_update_handler claims cluster node body = do
      lift (require_operator net.status_text claims)
      result ← on_cluster cluster (
          post_with_query net value (codes "nodes/" ++ node ++ codes "/network")
            (config_params body))
      answer ((codes "node", string node) ∷ (codes "cluster", string cluster) ∷ [], result)

    unfoldable pub network_config_apply_handler : Claims → Str → Str → Handler W (Answer × T)
    unfolding require_operator on_cluster post_with_query
    network_config_apply_handler claims cluster node = do
      lift (require_operator net.status_text claims)
      result ←
          on_cluster cluster
            (post_with_query net value (codes "nodes/" ++ node ++ codes "/network") [])
      answer ((codes "node", string node) ∷ (codes "cluster", string cluster) ∷ [], result)
