-- ===== src/Api/Storages.antt =====
-- src/api/storages.rs: the handlers about storages.
use moxui.Prelude.{ℕ, List, [], ◌∷◌, Str, codes, ◌++◌, Option, none, some, Result, ok, err}
use moxui.Auth.Jwt.{Claims}
use moxui.Proxmox.Http.{Net}
use moxui.Proxmox.Types.{F64, StorageResource, StorageContent}
use moxui.Proxmox.Client.{get}
use moxui.Proxmox.Client.Storages
use moxui.Api.Handler.{
  Handler, Answer, string, answer, ◌>>=◌, ◌>>◌, require_operator, lift, on_cluster, name_of,
  not_configured,
}
use moxui.Prelude.Map
use moxui.Prelude.Results.{ok_or}
use moxui.Error.{AppError, bad_request, not_found}
use moxui.State.{client}
use moxui.Api.Lxcs.{JsonValue, text}
use moxui.Api.Listing.{Listing, gather}

pub record StorageRow : Type 0 where
  pub cluster : Str
  pub node : Str
  pub storage : Str
  pub kind : Str
  pub total : ℕ
  pub used : ℕ
  pub avail : ℕ
  pub used_fraction : Option F64
  pub enabled : Option ℕ
  pub shared : Option ℕ
  pub content : Option Str

unfoldable pub storage_row : Str → Str → StorageResource → StorageRow
storage_row cluster node s = record {
  cluster = cluster;
  node = node;
  storage = s.storage;
  kind = s.kind;
  total = s.total;
  used = s.used;
  avail = s.avail;
  used_fraction = s.used_fraction;
  enabled = s.enabled;
  shared = s.shared;
  content = s.content;
}

-- `state.client(cluster).ok_or_else(…)?`.
unfoldable pub find_client : {W : Type 0} → Str → Handler W (Unit {0})
unfolding client not_configured
find_client cluster w cs = elim (client name_of cs cluster) [
  | none ↦ (w, cs, some (err (not_found (not_configured cluster))))
  | some c ↦ (w, cs, some (ok tt))
]

pub record UploadResponse : Type 0 where
  pub volid : Str
  pub msg : Option Str

pub record Uploaded : Type 0 where
  pub volid : Str
  pub msg : Option Str
  pub storage : Str
  pub cluster : Str

unfoldable pub as_str : JsonValue → Option Str
as_str (text s) = some s
as_str v = none

unfoldable pub decoded : Result (List ℕ) Str → Result (List ℕ) AppError
decoded (ok bytes) = ok bytes
decoded (err e) = err (bad_request (codes "invalid base64 data: " ++ e))

-- A field of a body that is a text. A body that is no object has no fields.
unfoldable pub text_field : Str → Option (List (Str × JsonValue)) → Option Str
unfolding as_str Map.get
text_field key none = none
text_field key (some fields) = elim (Map.get key fields) [ none ↦ none | some v ↦ as_str v ]

module _ {W : Type 0} (net : Net W) where
  -- `base64` decodes, or says why it does not; `parse` decodes the cluster's answer.
  module _ (base64 : Str → Result (List ℕ) Str) (parse : Str → Result UploadResponse Str) where
    unfoldable pub storage_upload_handler :
        Claims → Str → Str → Str → Option (List (Str × JsonValue)) → Handler W Uploaded
    unfolding require_operator find_client text_field decoded Storages.upload_file on_cluster
    storage_upload_handler claims cluster node storage body = do
      lift (require_operator net.status_text claims)
      find_client cluster
      content_type ← lift (
          ok_or (text_field (codes "content") body)
            (bad_request (codes "missing 'content' field (iso|vztmpl|snippets)")))
      filename ← lift (
          ok_or (text_field (codes "filename") body)
            (bad_request (codes "missing 'filename' field")))
      data_b64 ← lift (
          ok_or (text_field (codes "data") body)
            (bad_request (codes "missing 'data' field (base64-encoded file)")))
      bytes ← lift (decoded (base64 data_b64))
      resp ←
          on_cluster cluster
            (Storages.upload_file net parse node storage content_type filename bytes)
      answer record { volid = resp.volid; msg = resp.msg; storage = storage; cluster = cluster }

  unfoldable pub list_storages :
      (Str → Result (List StorageResource) Str) → Handler W (Listing StorageRow)
  unfolding gather get storage_row
  list_storages parse = gather (λ name s. storage_row name name s) (get net parse (codes "storage"))

  unfoldable pub storage_content :
      (Str → Result (List StorageContent) Str) → Str → Str → Str → Handler W (List StorageContent)
  unfolding on_cluster Storages.storage_content
  storage_content parse cluster node storage =
      on_cluster cluster (Storages.storage_content net node storage parse)

  -- `text` decodes a JSON text.
  module _ (text : Str → Result Str Str) where
    unfoldable pub delete_storage_content_handler :
        Claims → Str → Str → Str → Str → Handler W Answer
    unfolding require_operator on_cluster Storages.delete_storage_content
    delete_storage_content_handler claims cluster node storage volid = do
      lift (require_operator net.status_text claims)
      upid ← on_cluster cluster (Storages.delete_storage_content net text node storage volid)
      answer (
          (codes "volid", string volid)
          ∷ (codes "upid", string upid)
          ∷ (codes "storage", string storage)
          ∷ (codes "cluster", string cluster)
          ∷ [])
