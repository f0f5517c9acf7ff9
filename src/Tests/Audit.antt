-- ===== src/Tests/Audit.antt =====
-- src/audit on a log of three entries.
use moxui.Prelude.{
  if◌then◌else◌, ℕ, ◌-◌, ◌++◌, map, List, [], ◌∷◌, Str, codes, str_eq, true, length, get_elem?,
  keep_if, all, none, some, ok, ◌≡◌, refl, ap, arith,
}
use moxui.Prelude.Int.{ℤ, pos}
use moxui.Audit.Store.{
  AuditQuery, AuditEntry, SqlRow, Sqlite, desc, columns_of, page_count, query, fetch, log,
  find_by_request_id,
}
use moxui.Audit.Store.Statements.{Documented, selected, ordered, window}
use moxui.Audit.Store.Rows.{fits, row_of, found, describes}
use moxui.Audit.Store.Walk.{walk, walk-pages}
use moxui.Audit.Store.Ranges.{query-range}
use moxui.Audit.Store.Entries.{kept, find_by_request_id-log}
use moxui.Audit.Middleware.{
  Request, Response, Readings, entry_for, audit_middleware, is_state_changing,
}
use moxui.Audit.Middleware.Logged.{is_kept, audit_middleware_lem}

-- A table as a list, with the statements done as they are documented.
abbrev table : Sqlite (List SqlRow)
table = record {
  insert = λ c rows. (rows ++ (record { id = pos (length rows); columns = c } ∷ []), ok tt);
  count = λ cs ps rows. ok (pos (length (selected cs ps rows)));
  select = λ s ps rows. ok (
      window (get_elem? ps (s.limit - 1)) (get_elem? ps (s.offset - 1))
        (ordered s.order (selected s.conditions ps rows)));
  first = λ cs ps rows. ok (elim (selected cs ps rows) [ [] ↦ none | r ∷ rs ↦ some r.columns ]);
  out_of_range = codes "out of range";
}

abbrev table_rows : List SqlRow → List SqlRow
table_rows rows = rows

table-Documented : Documented table table_rows
table-Documented = record {
  counts = λ cs ps d. refl;
  selects = λ s ps d. refl;
  first_of_none = λ cs ps d e. rw e refl;
  first_of_one = λ cs ps d r e. rw e refl;
  inserts = λ c d. (pos (length d), refl, refl);
}

abbrev entry : ℕ → Str → AuditEntry
entry n id = record {
  ts = pos n;
  request_id = id;
  method = codes "POST";
  path = codes "/api/v1/vms";
  status = 200;
  duration_ms = 7;
  remote_addr = none;
  user_agent = none;
  user_id = none;
}

abbrev kept_rows : List SqlRow
kept_rows =
    record { id = pos 1; columns = columns_of (entry 10 (codes "r1")) }
    ∷ record { id = pos 2; columns = columns_of (entry 20 (codes "r2")) }
    ∷ record { id = pos 3; columns = columns_of (entry 30 (codes "r3")) }
    ∷ []

abbrev everything : AuditQuery
everything = record {
  page = 1;
  per_page = 2;
  method = some (codes "POST");
  path = none;
  status = none;
  from_ts = none;
  to_ts = none;
  request_id = none;
  sort_dir = desc;
}

kept_rows-fit : all fits kept_rows ≡ true
unfolding columns_of
kept_rows-fit = refl

walk-pages_example :
    walk table everything
      (page_count (length (keep_if (describes everything) kept_rows)) 2)
      0
      kept_rows
    ≡ map row_of (found (describes everything) desc kept_rows)
unfolding columns_of str_eq
walk-pages_example =
    walk-pages table table_rows table-Documented everything kept_rows refl kept_rows-fit
      (omega arith) (omega arith) (ground arith)

-- The walk reads three entries, the newest first.
walk_ids :
    map (λ r. r.entry.request_id) (walk table everything 2 0 kept_rows)
    ≡ codes "r3" ∷ codes "r2" ∷ codes "r1" ∷ []
unfolding query page_count str_eq fetch columns_of
walk_ids = ap (map (λ r. r.entry.request_id)) walk-pages_example

query-range_example :
    query table record everything { from_ts = some (pos 10); to_ts = some (pos 30) } kept_rows
    ≡ ok record { entries = []; total = 0; page = 1; per_page = 2; pages = 0 }
query-range_example =
    query-range table table_rows table-Documented
      record everything { from_ts = some (pos 10); to_ts = some (pos 30) } kept_rows (pos 10)
      (pos 30) kept_rows-fit (omega arith) (omega arith) (omega arith) (omega arith) refl refl
      (λ e. absurd (ground (arith, e)))

find_by_request_id-log_example :
    (find_by_request_id table (codes "r4") kept_rows ≡ ok none)
    × (find_by_request_id table (codes "r4") (log table (entry 40 (codes "r4")) kept_rows).0
        ≡ ok (some (kept (entry 40 (codes "r4")))))
    × ((log table (entry 40 (codes "r4")) kept_rows).1 ≡ ok tt)
unfolding str_eq columns_of
find_by_request_id-log_example =
    find_by_request_id-log table table_rows table-Documented (entry 40 (codes "r4")) kept_rows
      (omega arith) refl

abbrev readings : Readings
readings = record {
  to_str = some;
  from_str = some;
  new_uuid = codes "fresh";
  elapsed = 12;
  now = pos 50;
}

abbrev deletion : Request
deletion = record {
  method = codes "DELETE";
  path = codes "/api/v1/users/bob";
  headers = [];
  claims = none;
}

abbrev done : Request → List SqlRow → List SqlRow × Response Str
done req rows = (rows, record { status = 204; headers = []; body = codes "gone" })

audit_middleware_lem_example :
    (id : ℤ) × (table_rows (audit_middleware readings table done deletion kept_rows).0 ≡ (
      if is_kept deletion 204
      then kept_rows
        ++ (record { id = id; columns = columns_of (entry_for readings deletion 204) } ∷ [])
      else kept_rows))
    × ((audit_middleware readings table done deletion kept_rows).1.status ≡ 204)
    × ((audit_middleware readings table done deletion kept_rows).1.body ≡ codes "gone")
audit_middleware_lem_example =
    audit_middleware_lem table table_rows table-Documented readings done deletion kept_rows

deletion-kept : is_kept deletion 204 ≡ true
unfolding is_state_changing str_eq
deletion-kept = refl
