-- ===== src/Audit/Store/Statements.antt =====
-- src/audit/store.rs: what SQLite documents of the statements that the log sends, and which rows
-- the filters of a query describe.
use moxui.Prelude.{
  ℕ, ◌-◌, List, [], ◌∷◌, ◌++◌, Str, str_eq, length, take, drop, get_elem?, keep_if, all, Bool, true,
  false, ◌&&◌, ◌||◌, Option, none, some, if◌then◌else◌, ◌==◌, ok, ◌≡◌,
}
use moxui.Prelude.Int.{ℤ, pos, negsuc, ltb_ℤ}
use moxui.Prelude.Text.{contains}
use moxui.Audit.Store.{
  SortDir, desc, asc, AuditQuery, Columns, SqlRow, SqlValue, integer, text, Column, Condition, one,
  equal, path_has, Select, Sqlite,
}

abbrev pub eq_ℤ : ℤ → ℤ → Bool
eq_ℤ (pos m) (pos n) = m == n
eq_ℤ (negsuc m) (negsuc n) = m == n
eq_ℤ a b = false

abbrev pub leb_ℤ : ℤ → ℤ → Bool
leb_ℤ a b = ltb_ℤ a b || eq_ℤ a b

-- `=` on values of one type; values of different types differ.
abbrev pub sql_eq : SqlValue → SqlValue → Bool
sql_eq (integer a) (integer b) = eq_ℤ a b
sql_eq (text s) (text t) = str_eq s t
sql_eq v w = false

abbrev pub value_of : Column → Columns → SqlValue
value_of Column.method c = text c.method
value_of Column.status c = integer c.status
value_of Column.ts c = integer c.ts
value_of Column.request_id c = text c.request_id

abbrev pub text_in : SqlValue → Str → Bool
text_in (text s) path = contains s path
text_in (integer a) path = false

-- The parameter `?i`; a parameter that is not bound is NULL, and no test on it holds.
abbrev pub on_param : List SqlValue → ℕ → (SqlValue → Bool) → Bool
on_param ps i test = elim (get_elem? ps (i - 1)) [ none ↦ false | some v ↦ test v ]

abbrev pub meets : List SqlValue → Columns → Condition → Bool
meets ps c (one i) = on_param ps i (λ v. sql_eq v (integer (pos 1)))
meets ps c (equal col i) = on_param ps i (λ v. sql_eq v (value_of col c))
meets ps c (path_has i) = on_param ps i (λ v. text_in v c.path)

abbrev pub selected : List Condition → List SqlValue → List SqlRow → List SqlRow
selected cs ps rows = keep_if (λ r. all (meets ps r.columns) cs) rows

-- `ts order, id order`.
abbrev pub comes_first : SortDir → SqlRow → SqlRow → Bool
comes_first asc r s =
    ltb_ℤ r.columns.ts s.columns.ts || (eq_ℤ r.columns.ts s.columns.ts && ltb_ℤ r.id s.id)
comes_first desc r s =
    ltb_ℤ s.columns.ts r.columns.ts || (eq_ℤ r.columns.ts s.columns.ts && ltb_ℤ s.id r.id)

abbrev pub insert_row : SortDir → SqlRow → List SqlRow → List SqlRow
insert_row dir r [] = r ∷ []
insert_row dir r (s ∷ rows) =
    if comes_first dir r s then r ∷ s ∷ rows else s ∷ insert_row dir r rows

abbrev pub ordered : SortDir → List SqlRow → List SqlRow
ordered dir [] = []
ordered dir (r ∷ rows) = insert_row dir r (ordered dir rows)

-- `LIMIT n OFFSET m`, where a negative limit is none and a negative offset is zero.
abbrev pub window : Option SqlValue → Option SqlValue → List SqlRow → List SqlRow
window (some (integer (pos n))) (some (integer (pos m))) rows = take n (drop m rows)
window (some (integer (pos n))) o rows = take n rows
window l (some (integer (pos m))) rows = drop m rows
window l o rows = rows

-- The rows of the table, by `rows`, and what the statements do with them.
pub record Documented {Db : Type 0} (db : Sqlite Db) (rows : Db → List SqlRow) : Type 0 where
  pub counts :
      (cs : List Condition) (ps : List SqlValue) (d : Db)
      → db.count cs ps d ≡ ok (pos (length (selected cs ps (rows d))))
  pub selects :
      (s : Select) (ps : List SqlValue) (d : Db)
      → db.select s ps d
        ≡ ok (
            window
              (get_elem? ps (s.limit - 1))
              (get_elem? ps (s.offset - 1))
              (ordered s.order (selected s.conditions ps (rows d))))
  pub first_of_none :
      (cs : List Condition) (ps : List SqlValue) (d : Db)
      → selected cs ps (rows d) ≡ []
      → db.first cs ps d ≡ ok none
  pub first_of_one :
      (cs : List Condition) (ps : List SqlValue) (d : Db) (r : SqlRow)
      → selected cs ps (rows d) ≡ r ∷ []
      → db.first cs ps d ≡ ok (some r.columns)
  pub inserts :
      (c : Columns) (d : Db)
      → (id : ℤ) × (rows (db.insert c d).0 ≡ rows d ++ (record { id = id; columns = c } ∷ []))
        × ((db.insert c d).1 ≡ ok tt)

-- What a filter asks of a row, if it is given.
abbrev pub asked : {A : Type 0} → Option A → (A → Bool) → Bool
asked none test = true
asked (some v) test = test v

-- The rows that a query describes: `from_ts` is the least time and `to_ts` the greatest, both
-- included.
abbrev pub wanted : AuditQuery → Columns → Bool
wanted q c =
    asked q.method (λ m. str_eq m c.method)
    && asked q.path (λ p. contains p c.path)
    && asked q.status (λ s. eq_ℤ (pos s) c.status)
    && asked q.from_ts (λ t. leb_ℤ t c.ts)
    && asked q.to_ts (λ t. leb_ℤ c.ts t)
    && asked q.request_id (λ r. str_eq r c.request_id)

-- The rows that the built statement keeps: it compares both bounds of the time for equality.
abbrev pub matched : AuditQuery → Columns → Bool
matched q c =
    (((((true && asked q.method (λ m. str_eq m c.method)) && asked q.path (λ p. contains p c.path))
          && asked q.status (λ s. eq_ℤ (pos s) c.status))
        && asked q.from_ts (λ t. eq_ℤ t c.ts))
      && asked q.to_ts (λ t. eq_ℤ t c.ts))
    && asked q.request_id (λ r. str_eq r c.request_id)
