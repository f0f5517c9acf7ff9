-- ===== src/Api/Vms/Reads.antt =====
-- src/api/vms.rs: the handlers that read. `to_lowercase` is that of `str`, on Unicode.
use moxui.Prelude.{ℕ, List, ◌++◌, Str, codes, Option, none, some, ◌==◌, keep_if, Result}
use moxui.Prelude.Decimal.{decimal}
use moxui.Prelude.Text.{contains}
use moxui.Error.{not_found}
use moxui.Auth.Jwt.{Claims}
use moxui.Proxmox.Http.{Net}
use moxui.Proxmox.Types.{VmResource, StorageResource, StorageContent, BackupEntry}
use moxui.Proxmox.Client.{get}
use moxui.Proxmox.Client.Vms
use moxui.Proxmox.Client.Snapshots
use moxui.Proxmox.Client.Storages
use moxui.Api.Handler.{Handler, answer, refuse, ◌>>=◌, ◌>>◌, require_operator, lift, on_cluster}
use moxui.Api.Listing.{Listing, gather}
use moxui.Api.Vms.Rows.{VmRow, vm_row, find}

unfoldable pub search_filter : (Str → Str) → Option Str → List VmRow → List VmRow
unfolding contains
search_filter to_lowercase none rows = rows
search_filter to_lowercase (some search) rows =
    let lower_search = to_lowercase search in
    keep_if (λ row. contains lower_search (to_lowercase row.name)) rows

module _ {W : Type 0} (net : Net W) where
  -- `find` on the listed resources, then the row.
  module _ (to_lowercase : Str → Str) (vms : Str → Result (List VmResource) Str) where
    unfoldable pub list_vms : Option Str → Handler W (Listing VmRow)
    unfolding gather Vms.list_vms search_filter vm_row
    list_vms search = do
      all ← gather vm_row (Vms.list_vms net vms)
      answer record all { rows = search_filter to_lowercase search all.rows }

    unfoldable pub vm_detail : Str → ℕ → Handler W VmRow
    unfolding on_cluster Vms.list_vms find vm_row
    vm_detail cluster vmid = do
      listed ← on_cluster cluster (Vms.list_vms net vms)
      elim (find (λ (r : VmResource). r.vmid == vmid) listed) [
        | none ↦
            refuse (not_found (codes "VM " ++ decimal vmid ++ codes " not found in " ++ cluster))
        | some r ↦ answer (vm_row cluster r)
      ]

  module _ {T : Type 0} (parse : Str → Result T Str) where
    unfoldable pub vm_config_handler : Str → Str → ℕ → Handler W T
    unfolding on_cluster Vms.vm_config
    vm_config_handler cluster node vmid = on_cluster cluster (Vms.vm_config net parse node vmid)

    unfoldable pub vm_rrddata_handler : Str → Str → ℕ → Str → Handler W T
    unfolding on_cluster get
    vm_rrddata_handler cluster node vmid timeframe = on_cluster cluster (
        get net parse (
          codes "nodes/"
          ++ node
          ++ codes "/qemu/"
          ++ decimal vmid
          ++ codes "/rrddata?timeframe="
          ++ timeframe))

    unfoldable pub list_snapshots_handler : Claims → Str → Str → ℕ → Handler W T
    unfolding require_operator on_cluster Snapshots.list_snapshots
    list_snapshots_handler claims cluster node vmid = do
      lift (require_operator net.status_text claims)
      on_cluster cluster (Snapshots.list_snapshots net parse node vmid)

  unfoldable pub list_backups_handler :
      (Str → Result (List StorageResource) Str)
      → (Str → Result (List StorageContent) Str)
      → Claims
      → Str
      → Str
      → ℕ
      → Handler W (List BackupEntry)
  unfolding require_operator on_cluster Storages.list_backups
  list_backups_handler storages contents claims cluster node vmid = do
    lift (require_operator net.status_text claims)
    on_cluster cluster (Storages.list_backups net storages contents node vmid)
