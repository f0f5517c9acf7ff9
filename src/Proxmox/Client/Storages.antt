-- ===== src/Proxmox/Client/Storages.antt =====
-- src/proxmox/client.rs: the calls about storages and the backups in them.
use moxui.Prelude.{
  ℕ, map, List, [], ◌∷◌, ◌++◌, Str, codes, str_eq, Bool, ◌&&◌, none, keep_if, Result, ok, err,
}
use moxui.Prelude.Decimal.{decimal}
use moxui.Prelude.Text.{contains}
use moxui.Error.{AppError}
use moxui.Proxmox.Http.{Net, Ticket, HttpRequest, Body, multipart}
use moxui.Proxmox.Http
use moxui.Proxmox.Call.{Call, done, ◌>>=◌, timeout, attempt, send}
use moxui.Proxmox.Types.{StorageResource, StorageContent, BackupEntry}
use moxui.Proxmox.Client.{
  get, post_with_query, list_vms_timeout_secs, post_timeout_secs, current_ticket, self,
  handle_response, write_request,
}

unfoldable pub is_backup_of : Str → StorageContent → Bool
is_backup_of vmid c = str_eq c.content (codes "backup") && contains vmid c.volid

unfoldable pub backup_entry : StorageContent → BackupEntry
backup_entry c = record {
  volid = c.volid;
  storage = c.storage;
  filename = c.volid_name;
  size = c.size;
  format = c.format;
  ctime = c.ctime;
  notes = none;
}

-- The backups in what was read of one storage.
unfoldable pub found : Str → Result (List StorageContent) AppError → List BackupEntry
unfolding is_backup_of backup_entry
found vmid (ok contents) = map backup_entry (keep_if (is_backup_of vmid) contents)
found vmid (err e) = []

module _ {W : Type 0} (net : Net W) where
  unfoldable pub list_storages :
      Str → (Str → Result (List StorageResource) Str) → Call W (List StorageResource)
  unfolding get timeout
  list_storages node parse =
      timeout net list_vms_timeout_secs (codes "list_storages")
        (get net parse (codes "nodes/" ++ node ++ codes "/storage"))

  unfoldable pub storage_content :
      Str → Str → (Str → Result (List StorageContent) Str) → Call W (List StorageContent)
  unfolding get timeout
  storage_content node storage parse =
      timeout net list_vms_timeout_secs (codes "storage_content")
        (get net parse (codes "nodes/" ++ node ++ codes "/storage/" ++ storage ++ codes "/content"))

  -- The loop over the storages: one whose content cannot be read is passed over.
  unfoldable pub collect_backups :
      (Str → Result (List StorageContent) Str)
      → Str
      → Str
      → List StorageResource
      → Call W (List BackupEntry)
  unfolding storage_content found attempt
  collect_backups contents node vmid [] = done []
  collect_backups contents node vmid (s ∷ storages) = do
    r ← attempt (storage_content node s.storage contents)
    rest ← collect_backups contents node vmid storages
    done (found vmid r ++ rest)

  unfoldable pub list_backups :
      (Str → Result (List StorageResource) Str)
      → (Str → Result (List StorageContent) Str)
      → Str
      → ℕ
      → Call W (List BackupEntry)
  unfolding list_storages collect_backups
  list_backups storages contents node vmid = do
    listed ← list_storages node storages
    collect_backups contents node (decimal vmid) listed

-- `text` decodes a JSON text.
module _ {W : Type 0} (net : Net W) (text : Str → Result Str Str) where
  unfoldable pub delete_storage_content : Str → Str → Str → Call W Str
  unfolding post_with_query
  delete_storage_content node storage volid =
      post_with_query net text
        (codes "nodes/" ++ node ++ codes "/storage/" ++ storage ++ codes "/content/" ++ volid) []

module _ {W : Type 0} (net : Net W) where
  module _ {T : Type 0} (parse : Str → Result T Str) where
    -- The MIME type is a literal that parses.
    unfoldable pub upload_file : Str → Str → Str → Str → List ℕ → Call W T
    upload_file node storage content filename bytes = do
      let path = codes "nodes/" ++ node ++ codes "/storage/" ++ storage ++ codes "/upload"
      t ← current_ticket net
      c ← self net
      resp ←
          timeout net post_timeout_secs (codes "upload_file " ++ path)
            (send net (write_request Http.post c path [] (multipart filename bytes content) t))
      handle_response net parse resp
