-- ===== src/Audit/Store/Entries.antt =====
-- src/audit/store.rs: an entry is found again by its request's id.
use moxui.Prelude.{
  ℕ, ◌-◌, ◌^◌, ◌<◌, List, [], ◌∷◌, ◌++◌, Str, str_eq, str_eq_refl, keep_if, Bool, none, some,
  if◌then◌else◌, ltb, ok, ◌≡◌, refl, ap, ◌∙◌, arith,
}
use moxui.Prelude.Int.{ℤ, pos_part}
use moxui.Prelude.Results.{◌>>=◌}
use moxui.Audit.Store.{
  AuditEntry, SqlRow, SqlValue, text, Column, Condition, equal, Sqlite, log, find_by_request_id,
  read_columns, columns_of, i64_or, from_sqlite,
}
use moxui.Audit.Store.Statements.{Documented, selected}
use moxui.Audit.Store.Rows.{read_columns_lem}

-- The entry as the table keeps it: a duration that does not fit the database's integers is cut.
abbrev pub kept : AuditEntry → AuditEntry
kept e = record e { duration_ms = if ltb e.duration_ms (2 ^ 63) then e.duration_ms else 2 ^ 63 - 1 }

cut : (n : ℕ) → pos_part (i64_or (2 ^ 63 - 1) n) ≡ (if ltb n (2 ^ 63) then n else 2 ^ 63 - 1)
unfolding i64_or
cut n = ground arith

-- The rows of a request.
abbrev pub of_request : Str → List SqlRow → List SqlRow
of_request id rows = keep_if (λ r. str_eq id r.columns.request_id) rows

keep_if-append :
    {A : Type 0} (p : A → Bool) (xs ys : List A)
    → keep_if p (xs ++ ys) ≡ keep_if p xs ++ keep_if p ys
keep_if-append p [] ys = refl
keep_if-append p (x ∷ xs) ys = ground (arith, keep_if-append p xs ys)

by_request :
    (id : Str) (rows : List SqlRow)
    → selected (equal Column.request_id 1 ∷ []) (text id ∷ []) rows ≡ of_request id rows
by_request id [] = refl
by_request id (r ∷ rows) = ground (arith, by_request id rows)

added :
    (e : AuditEntry) (id : ℤ) (rows : List SqlRow)
    → of_request e.request_id rows ≡ []
    → of_request e.request_id (rows ++ (record { id = id; columns = columns_of e } ∷ []))
      ≡ record { id = id; columns = columns_of e } ∷ []
unfolding columns_of
added e id rows new =
    keep_if-append (λ r. str_eq e.request_id r.columns.request_id) rows
      (record { id = id; columns = columns_of e } ∷ [])
    ∙ rw (new, str_eq_refl e.request_id) refl

columns_of-read :
    (out : Str) (e : AuditEntry) → e.status < 2 ^ 16 → read_columns out (columns_of e) ≡ ok (kept e)
unfolding columns_of
columns_of-read out e fit =
    read_columns_lem out (columns_of e) e.status refl fit
    ∙ ap (λ n. ok record e { duration_ms = n }) (cut e.duration_ms)

module _ {Db : Type 0} (db : Sqlite Db) (rows : Db → List SqlRow) (doc : Documented db rows) where
  -- An entry whose request has none yet is found again by its request's id after it was logged, its
  -- duration cut to 63 bits; before, the request is answered with none. The status fits 16 bits, and
  -- the database does what is documented of its statements.
  pub find_by_request_id-log :
      (e : AuditEntry) (d : Db)
      → e.status < 2 ^ 16
      → of_request e.request_id (rows d) ≡ []
      → (find_by_request_id db e.request_id d ≡ ok none)
        × (find_by_request_id db e.request_id (log db e d).0 ≡ ok (some (kept e)))
        × ((log db e d).1 ≡ ok tt)
  unfolding find_by_request_id log from_sqlite
  find_by_request_id-log e d fit new =
      let cs : List Condition = equal Column.request_id 1 ∷ [] in
      let ps : List SqlValue = text e.request_id ∷ [] in
      let (id, stored, done) = doc.inserts (columns_of e) d in
      let row : SqlRow = record { id = id; columns = columns_of e } in
      let before : selected cs ps (rows d) ≡ [] = by_request e.request_id (rows d) ∙ new in
      let after : selected cs ps (rows (db.insert (columns_of e) d).0) ≡ row ∷ [] =
        by_request e.request_id (rows (db.insert (columns_of e) d).0)
        ∙ ap (of_request e.request_id) stored
        ∙ added e id (rows d) new in
      (
        rw (doc.first_of_none cs ps d before, ◌>>=◌) refl,
        rw
            (
              doc.first_of_one cs ps (db.insert (columns_of e) d).0 row after,
              columns_of-read db.out_of_range e fit,
              ◌>>=◌,
            )
            refl,
        rw done refl,
      )
