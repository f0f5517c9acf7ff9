-- ===== src/Audit/Store.antt =====
-- src/audit/store.rs: the audit log. SQLite is a parameter that is handed a statement's syntax
-- in place of its text; its behaviour is stated in Store/Statements.antt.
pub mod Statements
pub mod Filters
pub mod Rows
pub mod Pages
pub mod Walk
pub mod Ranges
pub mod Entries
use moxui.Prelude.{
  ℕ, zero, suc, ◌+◌, ◌-◌, ◌*◌, ◌/◌, ◌%◌, ◌^◌, List, [], ◌∷◌, ◌++◌, Str, codes, Bool, ◌||◌, Option,
  none, some, if◌then◌else◌, ◌==◌, ltb, Result, ok, err,
}
use moxui.Prelude.Int.{ℤ, pos, negsuc}
use moxui.Prelude.Results.{◌>>=◌}

pub data AuditStoreError : Type 0 where
  sqlite : Str → AuditStoreError
  pool : Str → AuditStoreError
  pagination : Str → AuditStoreError

pub data SortDir : Type 0 where
  desc asc : SortDir

pub record AuditQuery : Type 0 where
  pub page : ℕ
  pub per_page : ℕ
  pub method : Option Str
  pub path : Option Str
  pub status : Option ℕ
  pub from_ts : Option ℤ
  pub to_ts : Option ℤ
  pub request_id : Option Str
  pub sort_dir : SortDir

pub record AuditEntry : Type 0 where
  pub ts : ℤ
  pub request_id : Str
  pub method : Str
  pub path : Str
  pub status : ℕ
  pub duration_ms : ℕ
  pub remote_addr : Option Str
  pub user_agent : Option Str
  pub user_id : Option Str

pub record AuditEntryRow : Type 0 where
  pub id : ℤ
  pub entry : AuditEntry

pub record AuditQueryResult : Type 0 where
  pub entries : List AuditEntryRow
  pub total : ℕ
  pub page : ℕ
  pub per_page : ℕ
  pub pages : ℕ

-- What the table holds: the integers are SQLite's, of 64 bits.
pub record Columns : Type 0 where
  pub ts : ℤ
  pub request_id : Str
  pub method : Str
  pub path : Str
  pub status : ℤ
  pub duration_ms : ℤ
  pub remote_addr : Option Str
  pub user_agent : Option Str
  pub user_id : Option Str

pub record SqlRow : Type 0 where
  pub id : ℤ
  pub columns : Columns

pub data SqlValue : Type 0 where
  integer : ℤ → SqlValue
  text : Str → SqlValue

-- The columns that a condition compares.
pub data Column : Type 0 where
  method status ts request_id : Column

-- `1 = ?i`, `column = ?i` and `INSTR(path, ?i) > 0`.
pub data Condition : Type 0 where
  one : ℕ → Condition
  equal : Column → ℕ → Condition
  path_has : ℕ → Condition

-- `WHERE conditions ORDER BY ts order, id order LIMIT ?limit OFFSET ?offset`, where the conditions
-- are joined by AND.
pub record Select : Type 0 where
  pub conditions : List Condition
  pub order : SortDir
  pub limit : ℕ
  pub offset : ℕ

-- What `rusqlite` does on the table, and its error for an integer that does not fit the type.
pub record Sqlite (Db : Type 0) : Type 0 where
  pub insert : Columns → Db → Db × Result (Unit {0}) Str
  pub count : List Condition → List SqlValue → Db → Result ℤ Str
  pub select : Select → List SqlValue → Db → Result (List SqlRow) Str
  pub first : List Condition → List SqlValue → Db → Result (Option Columns) Str
  pub out_of_range : Str

-- The state of `build_where`: the conditions, the parameters, and the last parameter's number.
pub record Where : Type 0 where
  pub conditions : List Condition
  pub params : List SqlValue
  pub idx : ℕ

unfoldable pub add_param : Column → SqlValue → Where → Where
add_param col val w = record {
  conditions = w.conditions ++ (equal col (w.idx + 1) ∷ []);
  params = w.params ++ (val ∷ []);
  idx = w.idx + 1;
}

unfoldable pub add_path : Str → Where → Where
add_path path w = record {
  conditions = w.conditions ++ (path_has (w.idx + 1) ∷ []);
  params = w.params ++ (text path ∷ []);
  idx = w.idx + 1;
}

abbrev pub no_filter : Where
no_filter = record { conditions = one 1 ∷ []; params = integer (pos 1) ∷ []; idx = 1 }

-- `if let Some(v) = option { step }`.
unfoldable pub if_some : {A : Type 0} → Option A → (A → Where → Where) → Where → Where
if_some none step w = w
if_some (some v) step w = step v w

unfoldable pub build_where : AuditQuery → Where
unfolding if_some add_param add_path
build_where q =
    let w = if_some q.method (λ m. add_param method (text m)) no_filter in
    let w = if_some q.path add_path w in
    let w = if_some q.status (λ s. add_param status (integer (pos s))) w in
    let w = if_some q.from_ts (λ t. add_param ts (integer t)) w in
    let w = if_some q.to_ts (λ t. add_param ts (integer t)) w in
    if_some q.request_id (λ r. add_param request_id (text r)) w

-- `i64::try_from(n).unwrap_or(d)` and `u64::try_from(a).unwrap_or(0)`.
unfoldable pub i64_or : ℕ → ℕ → ℤ
i64_or d n = if ltb n (2 ^ 63) then pos n else pos d

unfoldable pub u64_or_zero : ℤ → ℕ
u64_or_zero (pos n) = n
u64_or_zero (negsuc n) = 0

unfoldable pub fit_u16 : Str → ℤ → Result ℕ AuditStoreError
fit_u16 e (pos n) = if ltb n (2 ^ 16) then ok n else err (sqlite e)
fit_u16 e (negsuc n) = err (sqlite e)

unfoldable pub read_columns : Str → Columns → Result AuditEntry AuditStoreError
unfolding fit_u16 u64_or_zero
read_columns e c = fit_u16 e c.status >>= λ status. ok record {
  ts = c.ts;
  request_id = c.request_id;
  method = c.method;
  path = c.path;
  status = status;
  duration_ms = u64_or_zero c.duration_ms;
  remote_addr = c.remote_addr;
  user_agent = c.user_agent;
  user_id = c.user_id;
}

unfoldable pub map_row : Str → SqlRow → Result AuditEntryRow AuditStoreError
unfolding read_columns
map_row e r = read_columns e r.columns >>= λ entry. ok record { id = r.id; entry = entry }

-- `collect` stops at the first row that does not map.
unfoldable pub map_rows : Str → List SqlRow → Result (List AuditEntryRow) AuditStoreError
unfolding map_row
map_rows e [] = ok []
map_rows e (r ∷ rs) = map_row e r >>= λ row. map_rows e rs >>= λ rows. ok (row ∷ rows)

-- `#[from] rusqlite::Error`.
unfoldable pub from_sqlite : {A : Type 0} → Result A Str → Result A AuditStoreError
from_sqlite (ok a) = ok a
from_sqlite (err e) = err (sqlite e)

unfoldable pub page_count : ℕ → ℕ → ℕ
page_count total per_page = if total == 0 then 0 else (total - 1) / per_page + 1

-- The sign of "page must be ≥ 1" in UTF-8.
abbrev pub page_error : Str
page_error = codes "page must be " ++ (226 ∷ 137 ∷ 165 ∷ []) ++ codes " 1"

-- The parameters of the insertion.
unfoldable pub columns_of : AuditEntry → Columns
unfolding i64_or
columns_of entry = record {
  ts = entry.ts;
  request_id = entry.request_id;
  method = entry.method;
  path = entry.path;
  status = pos entry.status;
  duration_ms = i64_or (2 ^ 63 - 1) entry.duration_ms;
  remote_addr = entry.remote_addr;
  user_agent = entry.user_agent;
  user_id = entry.user_id;
}

module _ {Db : Type 0} (db : Sqlite Db) where
  -- The mutex is never poisoned, as nothing under it panics.
  unfoldable pub log : AuditEntry → Db → Db × Result (Unit {0}) AuditStoreError
  unfolding from_sqlite columns_of
  log entry d = let (d', r) = db.insert (columns_of entry) d in (d', from_sqlite r)

  -- The page whose offset is given. The product of `u64`s wraps in a release build.
  unfoldable pub fetch : AuditQuery → ℕ → Db → Result AuditQueryResult AuditStoreError
  unfolding i64_or from_sqlite
  fetch q offset d =
      let w = build_where q in
      from_sqlite (db.count w.conditions w.params d) >>= λ count.
      let total = u64_or_zero count in
      from_sqlite (
        db.select
          record {
            conditions = w.conditions;
            order = q.sort_dir;
            limit = w.idx + 1;
            offset = w.idx + 2;
          }
          (w.params ++ (integer (i64_or 50 q.per_page) ∷ integer (i64_or 0 offset) ∷ [])) d)
      >>= λ found. map_rows db.out_of_range found >>= λ entries. ok record {
        entries = entries;
        total = total;
        page = q.page;
        per_page = q.per_page;
        pages = page_count total q.per_page;
      }

  unfoldable pub query : AuditQuery → Db → Result AuditQueryResult AuditStoreError
  query q d =
      if q.page == 0
      then err (pagination page_error)
      else if q.per_page == 0 || ltb 500 q.per_page
      then err (pagination (codes "per_page must be between 1 and 500"))
      else fetch q (((q.page - 1) * q.per_page) % 2 ^ 64) d

  unfoldable pub find_by_request_id : Str → Db → Result (Option AuditEntry) AuditStoreError
  unfolding from_sqlite
  find_by_request_id id d =
      from_sqlite (db.first (equal request_id 1 ∷ []) (text id ∷ []) d) >>= λ found. elim found [
        | none ↦ ok none
        | some c ↦ (read_columns db.out_of_range c >>= λ entry. ok (some entry))
      ]
