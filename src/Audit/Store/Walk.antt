-- ===== src/Audit/Store/Walk.antt =====
-- src/audit/store.rs: the pages of a query, one after the other.
use moxui.Prelude.{
  ℕ, zero, suc, ◌+◌, ◌-◌, ◌*◌, ◌^◌, ◌≤◌, ◌<◌, map, List, [], ◌∷◌, ◌++◌, length, take, drop, keep_if,
  all, Bool, true, ◌&&◌, Option, none, some, if◌then◌else◌, Result, ok, err, ◌≡◌, refl, sym, ap,
  ◌∙◌, arith,
}
use moxui.Audit.Store.{
  AuditStoreError, SortDir, AuditQuery, AuditQueryResult, AuditEntryRow, SqlRow, Sqlite, query,
  page_count,
}
use moxui.Audit.Store.Statements.{Documented, ordered, insert_row, comes_first, eq_ℤ, leb_ℤ, asked}
use moxui.Audit.Store.Rows.{fits, row_of, found, describes, matches}
use moxui.Audit.Store.Pages.{query_lem}
use moxui.Prelude.Int.{ℤ, pos, negsuc}
use mathlib.Core.Path.{fun_ext}
use mathlib.Core.List.{map-append}

page_count_bounds : (t n : ℕ) → 1 ≤ n → t ≤ page_count t n * n
unfolding page_count
page_count_bounds t n h = grind arith

page_count_tight : (t n : ℕ) → 1 ≤ n → 1 ≤ t → (page_count t n - 1) * n < t
unfolding page_count
page_count_tight t n h k = grind arith

module _ {A : Type 0} where
  take-drop : (n : ℕ) (xs : List A) → take n xs ++ drop n xs ≡ xs
  take-drop zero xs = refl
  take-drop (suc n) [] = refl
  take-drop (suc n) (x ∷ xs) = ap (λ l. x ∷ l) (take-drop n xs)

  pub take_nil : (n : ℕ) → take {A = A} n [] ≡ []
  take_nil zero = refl
  take_nil (suc n) = refl

  pub drop_nil : (n : ℕ) → drop {A = A} n [] ≡ []
  drop_nil zero = refl
  drop_nil (suc n) = refl

  drop-drop : (m n : ℕ) (xs : List A) → drop n (drop m xs) ≡ drop (m + n) xs
  drop-drop zero n xs = let e : 0 + n ≡ n = omega arith in rw e refl
  drop-drop (suc m) n [] = drop_nil n ∙ sym (drop_nil (suc m + n))
  drop-drop (suc m) n (x ∷ xs) =
      let e : suc m + n ≡ suc (m + n) = omega arith in rw e (drop-drop m n xs)

  drop_all : (n : ℕ) (xs : List A) → length xs ≤ n → drop n xs ≡ []
  drop_all zero [] h = refl
  drop_all zero (x ∷ xs) h = absurd (omega arith)
  drop_all (suc n) [] h = refl
  drop_all (suc n) (x ∷ xs) h = drop_all n xs (omega arith)

length-insert_row :
    (dir : SortDir) (r : SqlRow) (rows : List SqlRow)
    → length (insert_row dir r rows) ≡ suc (length rows)
length-insert_row dir r [] = refl
length-insert_row dir r (s ∷ rows) = branch (comes_first dir r s) (length-insert_row dir r rows)
  where
    branch :
        (first : Bool)
        → length (insert_row dir r rows) ≡ suc (length rows)
        → length (if first then r ∷ s ∷ rows else s ∷ insert_row dir r rows)
          ≡ suc (suc (length rows))
    branch first ih = ground arith

length-ordered : (dir : SortDir) (rows : List SqlRow) → length (ordered dir rows) ≡ length rows
length-ordered dir [] = refl
length-ordered dir (r ∷ rows) =
    length-insert_row dir r (ordered dir rows) ∙ ap suc (length-ordered dir rows)

abbrev pub entries_of : Result AuditQueryResult AuditStoreError → List AuditEntryRow
entries_of (ok r) = r.entries
entries_of (err e) = []

-- The entries of `k` pages, from the page `i + 1` on.
abbrev pub walk : {Db : Type 0} → Sqlite Db → AuditQuery → ℕ → ℕ → Db → List AuditEntryRow
walk db q zero i d = []
walk db q (suc k) i d = entries_of (query db record q { page = i + 1 } d) ++ walk db q k (i + 1) d

page_count_pos : (t n : ℕ) → 1 ≤ page_count t n → 1 ≤ t
unfolding page_count
page_count_pos t n h = ground arith

below_total :
    (t n : ℕ) → t < 2 ^ 63 → 1 ≤ n → 1 ≤ page_count t n → (page_count t n - 1) * n < 2 ^ 63
below_total t n s l h = omega (arith, page_count_tight t n l (page_count_pos t n h))

reach_page : (k i n : ℕ) → (i + suc k - 1) * n < 2 ^ 63 → i * n < 2 ^ 63
reach_page k i n h = grind arith

module _ {Db : Type 0} (db : Sqlite Db) (rows : Db → List SqlRow) (doc : Documented db rows)
    (q : AuditQuery) (d : Db) (fit : all fits (rows d) ≡ true) (low : 1 ≤ q.per_page)
    (high : q.per_page ≤ 500) (small : length (keep_if (matches q) (rows d)) < 2 ^ 63) where
  page_entries :
      (i : ℕ)
      → i * q.per_page < 2 ^ 63
      → entries_of (query db record q { page = i + 1 } d)
        ≡ map row_of
            (take q.per_page (drop (i * q.per_page) (found (matches q) q.sort_dir (rows d))))
  page_entries i h =
      let e : i + 1 - 1 ≡ i = omega arith in
      ap entries_of
        (query_lem db rows doc record q { page = i + 1 } d fit (omega arith) low high (rw e h))
      ∙ rw e refl

  walk_lem :
      (k i : ℕ)
      → length (found (matches q) q.sort_dir (rows d)) ≤ (i + k) * q.per_page
      → (1 ≤ k → (i + k - 1) * q.per_page < 2 ^ 63)
      → walk db q k i d ≡ map row_of (drop (i * q.per_page) (found (matches q) q.sort_dir (rows d)))
  walk_lem zero i all_read below =
      let e : i + 0 ≡ i = omega arith in
      let read : length (found (matches q) q.sort_dir (rows d)) ≤ i * q.per_page =
        rw e at all_read in
      rw (drop_all (i * q.per_page) (found (matches q) q.sort_dir (rows d)) read) refl
  walk_lem (suc k) i all_read below =
      let n = q.per_page in
      let l = found (matches q) q.sort_dir (rows d) in
      let next : (i + 1) * n ≡ i * n + n = grind arith in
      let shift : i + suc k ≡ i + 1 + k = omega arith in
      let more : length l ≤ (i + 1 + k) * n = rw shift at all_read in
      let reach : i * n < 2 ^ 63 = reach_page k i n (below (omega arith)) in
      let ih =
        walk_lem k (i + 1) more (λ h.
          let e : i + 1 + k - 1 ≡ i + suc k - 1 = omega arith in rw e (below (omega arith))) in
      rw (page_entries i reach, ih, next, ← (drop-drop (i * n) n l))
        (sym (map-append row_of (take n (drop (i * n) l)) (drop n (drop (i * n) l)))
          ∙ ap (map row_of) (take-drop n (drop (i * n) l)))

  walk_matches :
      walk db q (page_count (length (keep_if (matches q) (rows d))) q.per_page) 0 d
      ≡ map row_of (found (matches q) q.sort_dir (rows d))
  walk_matches =
      let t = length (keep_if (matches q) (rows d)) in
      let n = q.per_page in
      let zero_times : 0 * n ≡ 0 = omega arith in
      let plain : 0 + page_count t n ≡ page_count t n = omega arith in
      let same = length-ordered q.sort_dir (keep_if (matches q) (rows d)) in
      let walked =
        walk_lem (page_count t n) 0 (rw (plain, same) (page_count_bounds t n low))
          (λ h. rw plain (below_total t n small low h)) in
      rw zero_times at walked

least_and_greatest : (t ts : ℤ) → (leb_ℤ t ts && leb_ℤ ts t) ≡ (eq_ℤ t ts && eq_ℤ t ts)
least_and_greatest (pos m) (pos n) = ground arith
least_and_greatest (pos m) (negsuc n) = ground arith
least_and_greatest (negsuc m) (pos n) = ground arith
least_and_greatest (negsuc m) (negsuc n) = ground arith

-- Where the two bounds of the time agree, the statement keeps the rows that the query describes.
bounds_agree :
    (from to : Option ℤ) (ts : ℤ)
    → from ≡ to
    → (asked from (λ t. leb_ℤ t ts) && asked to (λ t. leb_ℤ ts t))
      ≡ (asked from (λ t. eq_ℤ t ts) && asked to (λ t. eq_ℤ t ts))
bounds_agree none to ts e = rw (← e) refl
bounds_agree (some t) to ts e = rw (← e) (least_and_greatest t ts)

describes-matches : (q : AuditQuery) → q.from_ts ≡ q.to_ts → describes q ≡ matches q
describes-matches q e =
    fun_ext λ r. let same = bounds_agree q.from_ts q.to_ts r.columns.ts e in ground arith

-- Reading the pages of a query from the first to the last, one finds every entry that the filters
-- describe once, in the query's order, where the query has no bound of the time, or its least and
-- its greatest time are the same. The database does what is documented of its statements, the stored
-- statuses are ones that `log` writes, a page has 1 to 500 rows, and the entries are fewer than 2 ^
-- 63.
pub walk-pages :
    {Db : Type 0} (db : Sqlite Db) (rows : Db → List SqlRow) (doc : Documented db rows)
    (q : AuditQuery) (d : Db)
    → q.from_ts ≡ q.to_ts
    → all fits (rows d) ≡ true
    → 1 ≤ q.per_page
    → q.per_page ≤ 500
    → length (keep_if (describes q) (rows d)) < 2 ^ 63
    → walk db q (page_count (length (keep_if (describes q) (rows d))) q.per_page) 0 d
      ≡ map row_of (found (describes q) q.sort_dir (rows d))
walk-pages db rows doc q d same fit low high small =
    let e = describes-matches q same in
    let few : length (keep_if (matches q) (rows d)) < 2 ^ 63 = rw e at small in
    rw e (walk_matches db rows doc q d fit low high few)
