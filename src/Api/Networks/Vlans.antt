-- ===== src/Api/Networks/Vlans.antt =====
-- src/api/networks.rs: the list of VLANs against the list of interfaces.
use moxui.Prelude.{
  map, keep_if, List, [], ◌∷◌, ◌++◌, Str, codes, str_eq, Bool, Option, none, some, Result, ok, err,
  ◌≡◌, refl, sym, ap, ◌∙◌, arith,
}
use moxui.Prelude.Map.{insert}
use moxui.Error.{AppError, to_string}
use moxui.Proxmox.Http.{Net}
use moxui.Proxmox.Call.{ProxmoxClient}
use moxui.Proxmox.Types.{NodeNetwork}
use moxui.Api.Listing.{Listing, merge, gather}
use moxui.Api.Networks.{
  NetworkRow, VlanRow, network_row, vlan_row, push_vlans, merge_vlans, list_networks, list_vlans,
}
use moxui.Proxmox.Client.{get}
use moxui.Api.Handler.{on_each}
use mathlib.Core.Option
use mathlib.Core.List.{append_assoc, append-nil}

abbrev pub is_vlan : NetworkRow → Bool
is_vlan row = str_eq row.kind (codes "vlan")

abbrev pub to_vlan : NetworkRow → VlanRow
to_vlan row = record {
  cluster = row.cluster;
  iface = row.iface;
  vlan_id = row.vlan_id;
  raw_device = row.iface_vlan_raw_device;
  active = row.active;
  address = row.address;
  comments = row.comments;
}

-- The VLANs among the rows, with the errors as they are.
abbrev pub vlans_among : Listing NetworkRow → Listing VlanRow
vlans_among all = record { rows = map to_vlan (keep_if is_vlan all.rows); errors = all.errors }

among-append :
    (xs ys : List NetworkRow)
    → map to_vlan (keep_if is_vlan (xs ++ ys))
      ≡ map to_vlan (keep_if is_vlan xs) ++ map to_vlan (keep_if is_vlan ys)
among-append [] ys = refl
among-append (x ∷ xs) ys = ground (arith, among-append xs ys)

push_vlans_lem :
    (cluster : Str) (list : List NodeNetwork) (vlans : List VlanRow)
    → push_vlans cluster list vlans
      ≡ vlans ++ map to_vlan (keep_if is_vlan (map (network_row cluster) list))
unfolding push_vlans network_row vlan_row
push_vlans_lem cluster [] vlans = sym (append-nil vlans)
push_vlans_lem cluster (n ∷ list) vlans = ground (
  arith,
  push_vlans_lem cluster list vlans,
  push_vlans_lem cluster list (vlans ++ (vlan_row cluster n ∷ [])),
  append_assoc vlans (vlan_row cluster n ∷ [])
      (map to_vlan (keep_if is_vlan (map (network_row cluster) list))),
)

merge_vlans_lem :
    (results : List (Str × Result (List NodeNetwork) AppError)) (acc : Listing NetworkRow)
    → merge_vlans results (vlans_among acc) ≡ vlans_among (merge network_row results acc)
unfolding merge_vlans merge
merge_vlans_lem [] acc = refl
merge_vlans_lem ((name, ok list) ∷ results) acc =
    ap (λ rows. merge_vlans results record (vlans_among acc) { rows = rows })
      (push_vlans_lem name list (vlans_among acc).rows
        ∙ sym (among-append acc.rows (map (network_row name) list)))
    ∙ merge_vlans_lem results record acc { rows = acc.rows ++ map (network_row name) list }
merge_vlans_lem ((name, err e) ∷ results) acc =
    merge_vlans_lem results record acc { errors = insert name (to_string e) acc.errors }

-- What a handler's answer becomes under a function.
abbrev pub answer_map :
    {A B : Type 0} → (A → B) → Option (Result A AppError) → Option (Result B AppError)
answer_map f none = none
answer_map f (some (ok x)) = some (ok (f x))
answer_map f (some (err e)) = some (err e)

answer_map-merge :
    (results : Option (List (Str × Result (List NodeNetwork) AppError)))
    → Option.map (λ rs. ok (merge_vlans rs record { rows = []; errors = [] })) results
      ≡ answer_map vlans_among
          (Option.map (λ rs. ok (merge network_row rs record { rows = []; errors = [] })) results)
answer_map-merge none = refl
answer_map-merge (some rs) =
    ap (λ l. some (ok l)) (merge_vlans_lem rs record { rows = []; errors = [] })

module _ {W : Type 0} (net : Net W) (parse : Str → Result (List NodeNetwork) Str) where
  -- The list of VLANs sends what the list of interfaces sends, and answers with the VLANs among its
  -- rows and with its errors.
  pub list_vlans-list_networks :
      (w : W) (cs : List ProxmoxClient)
      → list_vlans net parse w cs
        ≡ (let (w', cs', r) = list_networks net parse w cs in (w', cs', answer_map vlans_among r))
  unfolding list_vlans list_networks gather
  list_vlans-list_networks w cs =
      ap
        (λ r. (
          (on_each (get net parse (codes "network")) w cs).0,
          (on_each (get net parse (codes "network")) w cs).1,
          r,
        ))
        (answer_map-merge (on_each (get net parse (codes "network")) w cs).2)
