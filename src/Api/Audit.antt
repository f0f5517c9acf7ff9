-- ===== src/Api/Audit.antt =====
-- src/api/audit.rs: the handler that lists the audit log.
pub mod Errors
use moxui.Prelude.{
  ℕ, map, List, Str, codes, str_eq, Option, none, some, if◌then◌else◌, unwrap_or, Result, ok, err,
}
use moxui.Prelude.Int.{ℤ}
use moxui.Audit.Store.{SortDir, asc, desc, AuditQuery, AuditEntryRow, Sqlite, query}

pub record AuditQueryParams : Type 0 where
  pub page : Option ℕ
  pub per_page : Option ℕ
  pub method : Option Str
  pub path : Option Str
  pub status : Option ℕ
  pub from_ts : Option ℤ
  pub to_ts : Option ℤ
  pub request_id : Option Str
  pub sort : Option Str

unfoldable pub sort_dir_of : Option Str → SortDir
sort_dir_of none = desc
sort_dir_of (some s) = if str_eq s (codes "asc") then asc else desc

unfoldable pub query_of : AuditQueryParams → AuditQuery
unfolding sort_dir_of
query_of p = record {
  page = unwrap_or p.page 1;
  per_page = unwrap_or p.per_page 50;
  method = p.method;
  path = p.path;
  status = p.status;
  from_ts = p.from_ts;
  to_ts = p.to_ts;
  request_id = p.request_id;
  sort_dir = sort_dir_of p.sort;
}

pub record AuditEntryResponse : Type 0 where
  pub id : ℤ
  pub ts : ℤ
  pub request_id : Str
  pub method : Str
  pub path : Str
  pub status : ℕ
  pub duration_ms : ℕ
  pub remote_addr : Option Str
  pub user_agent : Option Str
  pub user_id : Option Str

unfoldable pub entry_response : AuditEntryRow → AuditEntryResponse
entry_response row = record {
  id = row.id;
  ts = row.entry.ts;
  request_id = row.entry.request_id;
  method = row.entry.method;
  path = row.entry.path;
  status = row.entry.status;
  duration_ms = row.entry.duration_ms;
  remote_addr = row.entry.remote_addr;
  user_agent = row.entry.user_agent;
  user_id = row.entry.user_id;
}

pub record AuditResponse : Type 0 where
  pub entries : List AuditEntryResponse
  pub total : ℕ
  pub page : ℕ
  pub per_page : ℕ
  pub pages : ℕ

-- The error is the answer's status and the text of its `error`.
unfoldable pub list_audit :
    {Db : Type 0} → Sqlite Db → AuditQueryParams → Db → Result AuditResponse (ℕ × Str)
unfolding query_of entry_response
list_audit db params d = elim (query db (query_of params) d) [
  | ok result ↦ ok record {
    entries = map entry_response result.entries;
    total = result.total;
    page = result.page;
    per_page = result.per_page;
    pages = result.pages;
  }
  | err e ↦ err (500, codes "audit query failed")
]
