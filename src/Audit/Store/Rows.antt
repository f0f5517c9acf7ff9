-- ===== src/Audit/Store/Rows.antt =====
-- src/audit/store.rs: the rows that `log` writes are mapped without an error.
use moxui.Prelude.{
  ℕ, zero, suc, ◌^◌, ◌<◌, map, List, [], ◌∷◌, Str, take, drop, keep_if, all, Bool, true, false,
  ◌&&◌, if◌then◌else◌, ltb, ok, ◌≡◌, refl, ◌∙◌, arith,
}
use moxui.Prelude.Int.{ℤ, pos, negsuc, pos_part}
use moxui.Prelude.Results.{◌>>=◌}
use moxui.Audit.Store.{
  SortDir, AuditQuery, AuditEntryRow, AuditEntry, Columns, SqlRow, map_rows, map_row, read_columns,
  fit_u16, u64_or_zero,
}
use moxui.Audit.Store.Statements.{ordered, insert_row, comes_first, wanted, matched}

-- The row's status is one, as `log` writes it.
abbrev pub fits : SqlRow → Bool
fits r = elim r.columns.status [ pos n ↦ ltb n (2 ^ 16) | negsuc n ↦ false ]

-- The row as the log shows it.
abbrev pub entry_of : Columns → AuditEntry
entry_of c = record {
  ts = c.ts;
  request_id = c.request_id;
  method = c.method;
  path = c.path;
  status = pos_part c.status;
  duration_ms = pos_part c.duration_ms;
  remote_addr = c.remote_addr;
  user_agent = c.user_agent;
  user_id = c.user_id;
}

abbrev pub row_of : SqlRow → AuditEntryRow
row_of r = record { id = r.id; entry = entry_of r.columns }

-- The rows that a predicate keeps, in the order of a query.
abbrev pub found : (SqlRow → Bool) → SortDir → List SqlRow → List SqlRow
found p dir rows = ordered dir (keep_if p rows)

abbrev pub describes : AuditQuery → SqlRow → Bool
describes q r = wanted q r.columns

abbrev pub matches : AuditQuery → SqlRow → Bool
matches q r = matched q r.columns

module _ (p : SqlRow → Bool) where
  all-take : (n : ℕ) (rows : List SqlRow) → all p rows ≡ true → all p (take n rows) ≡ true
  all-take zero rows h = refl
  all-take (suc n) [] h = refl
  all-take (suc n) (r ∷ rows) h = ground (arith, all-take n rows)

  all-drop : (n : ℕ) (rows : List SqlRow) → all p rows ≡ true → all p (drop n rows) ≡ true
  all-drop zero rows h = h
  all-drop (suc n) [] h = refl
  all-drop (suc n) (r ∷ rows) h = ground (arith, all-drop n rows)

  all-keep_if :
      (q : SqlRow → Bool) (rows : List SqlRow) → all p rows ≡ true → all p (keep_if q rows) ≡ true
  all-keep_if q [] h = refl
  all-keep_if q (r ∷ rows) h = ground (arith, all-keep_if q rows)

  all-insert_row :
      (dir : SortDir) (r : SqlRow) (rows : List SqlRow)
      → all p (insert_row dir r rows) ≡ (p r && all p rows)
  all-insert_row dir r [] = refl
  all-insert_row dir r (s ∷ rows) = branch (comes_first dir r s) (all-insert_row dir r rows)
    where
      branch :
          (first : Bool)
          → all p (insert_row dir r rows) ≡ (p r && all p rows)
          → all p (if first then r ∷ s ∷ rows else s ∷ insert_row dir r rows)
            ≡ (p r && (p s && all p rows))
      branch first ih = ground arith

  all-ordered :
      (dir : SortDir) (rows : List SqlRow) → all p rows ≡ true → all p (ordered dir rows) ≡ true
  all-ordered dir [] h = refl
  all-ordered dir (r ∷ rows) h =
      all-insert_row dir r (ordered dir rows) ∙ ground (arith, all-ordered dir rows)

pub page-fits :
    (p : SqlRow → Bool) (dir : SortDir) (n m : ℕ) (rows : List SqlRow)
    → all fits rows ≡ true
    → all fits (take n (drop m (found p dir rows))) ≡ true
page-fits p dir n m rows h =
    let kept = all-keep_if fits p rows h in
    let sorted = all-ordered fits dir (keep_if p rows) kept in
    all-take fits n (drop m (found p dir rows)) (all-drop fits m (found p dir rows) sorted)

u64_or_zero_lem : (a : ℤ) → u64_or_zero a ≡ pos_part a
unfolding u64_or_zero
u64_or_zero_lem (pos n) = refl
u64_or_zero_lem (negsuc n) = refl

pub read_columns_lem :
    (e : Str) (c : Columns) (n : ℕ)
    → c.status ≡ pos n
    → n < 2 ^ 16
    → read_columns e c ≡ ok (entry_of c)
unfolding read_columns fit_u16
read_columns_lem e c n s h = ground (arith, u64_or_zero_lem c.duration_ms)

fits_iff : (r : SqlRow) → fits r ≡ true → (n : ℕ) × (r.columns.status ≡ pos n) × (n < 2 ^ 16)
fits_iff r h = split r.columns.status h
  where
    split :
        (s : ℤ)
        → elim s [ pos n ↦ ltb n (2 ^ 16) | negsuc n ↦ false ] ≡ true
        → (n : ℕ) × (s ≡ pos n) × (n < 2 ^ 16)
    split (pos n) h = (n, refl, ground arith)
    split (negsuc n) h = cc

map_row_lem : (e : Str) (r : SqlRow) → fits r ≡ true → map_row e r ≡ ok (row_of r)
unfolding map_row
map_row_lem e r h =
    let (n, s, small) = fits_iff r h in rw (read_columns_lem e r.columns n s small, ◌>>=◌) refl

pub map_rows_lem :
    (e : Str) (rows : List SqlRow) → all fits rows ≡ true → map_rows e rows ≡ ok (map row_of rows)
unfolding map_rows
map_rows_lem e [] h = refl
map_rows_lem e (r ∷ rows) h =
    rw (map_row_lem e r (ground arith), map_rows_lem e rows (ground arith), ◌>>=◌) refl
