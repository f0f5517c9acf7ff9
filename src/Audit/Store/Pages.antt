-- ===== src/Audit/Store/Pages.antt =====
-- src/audit/store.rs: the page that a query answers.
use moxui.Prelude.{
  ℕ, ◌+◌, ◌-◌, ◌*◌, ◌%◌, ◌^◌, ◌≤◌, ◌<◌, map, List, [], ◌∷◌, ◌++◌, length, length-append, take, drop,
  get_elem?, keep_if, all, true, none, some, ok, ◌≡◌, refl, sym, ap, ◌∙◌, arith,
}
use moxui.Prelude.Int.{pos}
use moxui.Prelude.Results.{◌>>=◌}
use moxui.Audit.Store.{
  AuditQuery, AuditQueryResult, Columns, SqlRow, SqlValue, integer, Sqlite, build_where, fetch,
  query, i64_or, u64_or_zero, page_count, from_sqlite,
}
use moxui.Audit.Store.Statements.{Documented, selected, ordered, window}
use moxui.Audit.Store.Rows.{fits, row_of, found, matches, page-fits, map_rows_lem}
use moxui.Audit.Store.Filters.{build_where-Means, get_elem?-end}
use mathlib.Core.List.{append_assoc, append-nil}
use mathlib.Core.Path.{fun_ext}

-- Any columns serve to count the parameters.
abbrev no_columns : Columns
no_columns = record {
  ts = pos 0;
  request_id = [];
  method = [];
  path = [];
  status = pos 0;
  duration_ms = pos 0;
  remote_addr = none;
  user_agent = none;
  user_id = none;
}

module _ (ps : List SqlValue) (i : ℕ) (l o : SqlValue) (count : i ≡ length ps) where
  bound_first : get_elem? (ps ++ (l ∷ o ∷ [])) (i + 1 - 1) ≡ some l
  bound_first = let e : i + 1 - 1 ≡ length ps = omega arith in rw e (get_elem?-end ps l (o ∷ []))

  bound_second : get_elem? (ps ++ (l ∷ o ∷ [])) (i + 2 - 1) ≡ some o
  bound_second =
      let e : i + 2 - 1 ≡ length (ps ++ (l ∷ [])) = omega (arith, length-append ps (l ∷ [])) in
      rw (e, ← (append_assoc ps (l ∷ []) (o ∷ []))) (get_elem?-end (ps ++ (l ∷ [])) o [])

count_params : (q : AuditQuery) → (build_where q).idx ≡ length (build_where q).params
count_params q = (build_where-Means no_columns q).0

module _ {Db : Type 0} (db : Sqlite Db) (rows : Db → List SqlRow) (doc : Documented db rows) where
  selected_lem :
      (q : AuditQuery) (rest : List SqlValue) (d : Db)
      → selected (build_where q).conditions ((build_where q).params ++ rest) (rows d)
        ≡ keep_if (matches q) (rows d)
  selected_lem q rest d =
      ap (λ p. keep_if p (rows d)) (fun_ext (λ r. (build_where-Means r.columns q).1 rest))

  counted :
      (q : AuditQuery) (d : Db)
      → db.count (build_where q).conditions (build_where q).params d
        ≡ ok (pos (length (keep_if (matches q) (rows d))))
  counted q d =
      let same = sym (append-nil (build_where q).params) in
      doc.counts (build_where q).conditions (build_where q).params d
      ∙ ap (λ ps. ok (pos (length (selected (build_where q).conditions ps (rows d))))) same
      ∙ ap (λ rs. ok (pos (length rs))) (selected_lem q [] d)

  fetched :
      (q : AuditQuery) (n m : ℕ) (d : Db)
      → db.select
          record {
            conditions = (build_where q).conditions;
            order = q.sort_dir;
            limit = (build_where q).idx + 1;
            offset = (build_where q).idx + 2;
          }
          ((build_where q).params ++ (integer (pos n) ∷ integer (pos m) ∷ []))
          d
        ≡ ok (take n (drop m (found (matches q) q.sort_dir (rows d))))
  fetched q n m d =
      let w = build_where q in
      let rest : List SqlValue = integer (pos n) ∷ integer (pos m) ∷ [] in
      doc.selects _ _ d
      ∙ ap
          (λ rs. ok (
            window (get_elem? (w.params ++ rest) (w.idx + 1 - 1))
              (get_elem? (w.params ++ rest) (w.idx + 2 - 1)) (ordered q.sort_dir rs)))
          (selected_lem q rest d)
      ∙ rw
          (
            bound_first w.params w.idx (integer (pos n)) (integer (pos m)) (count_params q),
            bound_second w.params w.idx (integer (pos n)) (integer (pos m)) (count_params q),
          )
          refl

  -- The answer to a query in terms of the table.
  abbrev pub answer_at : AuditQuery → ℕ → Db → AuditQueryResult
  answer_at q offset d = record {
    entries = map row_of (take q.per_page (drop offset (found (matches q) q.sort_dir (rows d))));
    total = length (keep_if (matches q) (rows d));
    page = q.page;
    per_page = q.per_page;
    pages = page_count (length (keep_if (matches q) (rows d))) q.per_page;
  }

  -- The page from the offset that the statement is given.
  fetch_lem :
      (q : AuditQuery) (offset m : ℕ) (d : Db)
      → all fits (rows d) ≡ true
      → q.per_page < 2 ^ 63
      → i64_or 0 offset ≡ pos m
      → fetch db q offset d ≡ ok (answer_at q m d)
  unfolding fetch i64_or from_sqlite u64_or_zero
  fetch_lem q offset m d fit small skip =
      let limit : i64_or 50 q.per_page ≡ pos q.per_page = ground arith in
      let page = take q.per_page (drop m (found (matches q) q.sort_dir (rows d))) in
      let fit_page =
        map_rows_lem db.out_of_range page
          (page-fits (matches q) q.sort_dir q.per_page m (rows d) fit) in
      rw (counted q d, limit, skip, fetched q q.per_page m d, fit_page, ◌>>=◌) refl

  -- With a page of at least 1 and at most 500 rows to a page, and an offset below 2 ^ 63, a query
  -- of a table that `log` filled answers the page's rows: those that the filters describe, newest
  -- or oldest first, with the number of all such rows and of the pages that they fill.
  pub query_lem :
      (q : AuditQuery) (d : Db)
      → all fits (rows d) ≡ true
      → 1 ≤ q.page
      → 1 ≤ q.per_page
      → q.per_page ≤ 500
      → (q.page - 1) * q.per_page < 2 ^ 63
      → query db q d ≡ ok (answer_at q ((q.page - 1) * q.per_page) d)
  unfolding query i64_or
  query_lem q d fit p n m h =
      let exact : ((q.page - 1) * q.per_page) % 2 ^ 64 ≡ (q.page - 1) * q.per_page = omega arith in
      let fetched =
        fetch_lem q ((q.page - 1) * q.per_page) ((q.page - 1) * q.per_page) d fit (omega arith)
          (ground arith) in
      rw exact (ground (arith, fetched))

  -- A page whose offset does not fit the database's integers is answered with the first rows, under
  -- the number that was asked for.
  pub query_overflow :
      (q : AuditQuery) (d : Db)
      → all fits (rows d) ≡ true
      → 1 ≤ q.page
      → 1 ≤ q.per_page
      → q.per_page ≤ 500
      → 2 ^ 63 ≤ (q.page - 1) * q.per_page
      → (q.page - 1) * q.per_page < 2 ^ 64
      → query db q d ≡ ok (answer_at q 0 d)
  unfolding query i64_or
  query_overflow q d fit p n m low high =
      let exact : ((q.page - 1) * q.per_page) % 2 ^ 64 ≡ (q.page - 1) * q.per_page = omega arith in
      let fetched = fetch_lem q ((q.page - 1) * q.per_page) 0 d fit (omega arith) (ground arith) in
      rw exact (ground (arith, fetched))
