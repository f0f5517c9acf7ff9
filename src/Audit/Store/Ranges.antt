-- ===== src/Audit/Store/Ranges.antt =====
-- src/audit/store.rs: what the bounds on the time do.
use moxui.Prelude.{
  List, [], ◌∷◌, keep_if, all, Bool, true, false, some, ◌≤◌, ◌-◌, ◌*◌, ◌<◌, ◌^◌, ok, ◌≡◌, ◌≢◌, refl,
  ◌∙◌, arith,
}
use moxui.Prelude.Int.{ℤ, pos, negsuc}
use moxui.Audit.Store.{AuditQuery, Columns, SqlRow, Sqlite, query, page_count}
use moxui.Audit.Store.Statements.{Documented, eq_ℤ, matched}
use moxui.Audit.Store.Rows.{fits, matches}
use moxui.Audit.Store.Pages.{query_lem}
use moxui.Audit.Store.Walk.{drop_nil, take_nil}

eq_ℤ_sound : (a b : ℤ) → eq_ℤ a b ≡ true → a ≡ b
eq_ℤ_sound (pos m) (pos n) h = ground arith
eq_ℤ_sound (negsuc m) (negsuc n) h = ground arith
eq_ℤ_sound (pos m) (negsuc n) h = cc
eq_ℤ_sound (negsuc m) (pos n) h = cc

keep_if-none :
    {A : Type 0} (p : A → Bool) (xs : List A) → ((x : A) → p x ≡ false) → keep_if p xs ≡ []
keep_if-none p [] h = refl
keep_if-none p (x ∷ xs) h = ground (arith, h x, keep_if-none p xs h)

-- No row matches two different bounds.
range-empty :
    (q : AuditQuery) (c : Columns) (from to : ℤ)
    → q.from_ts ≡ some from
    → q.to_ts ≡ some to
    → from ≢ to
    → matched q c ≡ false
range-empty q c from to f t h = ground (arith, eq_ℤ_sound from c.ts, eq_ℤ_sound to c.ts)

-- A query for the entries between two different times finds none, whatever the log holds, as both
-- bounds are compared for equality. The database does what is documented of its statements, the
-- stored statuses are ones that `log` writes, the page is at least 1 with 1 to 500 rows, and its
-- offset is below 2 ^ 63.
pub query-range :
    {Db : Type 0} (db : Sqlite Db) (rows : Db → List SqlRow) (doc : Documented db rows)
    (q : AuditQuery) (d : Db) (from to : ℤ)
    → all fits (rows d) ≡ true
    → 1 ≤ q.page
    → 1 ≤ q.per_page
    → q.per_page ≤ 500
    → (q.page - 1) * q.per_page < 2 ^ 63
    → q.from_ts ≡ some from
    → q.to_ts ≡ some to
    → from ≢ to
    → query db q d
      ≡ ok record { entries = []; total = 0; page = q.page; per_page = q.per_page; pages = 0 }
unfolding page_count
query-range db rows doc q d from to fit p n m h f t ne =
    query_lem db rows doc q d fit p n m h
    ∙ rw
        (
          keep_if-none (matches q) (rows d) (λ r. range-empty q r.columns from to f t ne),
          drop_nil {A = SqlRow} ((q.page - 1) * q.per_page),
          take_nil {A = SqlRow} q.per_page,
        )
        refl
