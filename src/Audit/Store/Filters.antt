-- ===== src/Audit/Store/Filters.antt =====
-- src/audit/store.rs: the conditions that `build_where` makes, and the rows that they describe.
use moxui.Prelude.{
  ℕ, ◌+◌, ◌-◌, List, [], ◌∷◌, ◌++◌, length, length-append, get_elem?, all, Bool, true, ◌&&◌, Option,
  none, some, Str, str_eq, ◌≡◌, refl, ◌∙◌, arith,
}
use moxui.Prelude.Int.{pos}
use moxui.Prelude.Text.{contains}
use moxui.Audit.Store.{
  AuditQuery, Columns, SqlValue, integer, text, Column, Condition, equal, path_has, Where,
  add_param, add_path, if_some, no_filter, build_where,
}
use moxui.Audit.Store.Statements.{eq_ℤ, sql_eq, value_of, text_in, meets, on_param, asked, matched}
use mathlib.Core.List.{append_assoc}

pub get_elem?-end :
    {A : Type 0} (ps : List A) (v : A) (rest : List A)
    → get_elem? (ps ++ (v ∷ rest)) (length ps) ≡ some v
get_elem?-end [] v rest = refl
get_elem?-end (p ∷ ps) v rest = get_elem?-end ps v rest

all-append :
    {A : Type 0} (p : A → Bool) (xs ys : List A) → all p (xs ++ ys) ≡ (all p xs && all p ys)
all-append p [] ys = refl
all-append p (x ∷ xs) ys = ground (arith, all-append p xs ys)

on_param-last :
    (ps : List SqlValue) (i : ℕ) (test : SqlValue → Bool) {v : SqlValue}
    → get_elem? ps i ≡ some v
    → on_param ps (i + 1) test ≡ test v
on_param-last ps i test e = let same : i + 1 - 1 ≡ i = omega arith in rw (on_param, same, e) refl

module _ (c : Columns) where
  -- The conditions hold of the row exactly if `b`, whatever parameters follow.
  abbrev pub Means : Where → Bool → Type 0
  Means w b =
      (w.idx ≡ length w.params)
      × ((rest : List SqlValue) → all (meets (w.params ++ rest) c) w.conditions ≡ b)

  abbrev extended : Condition → SqlValue → Where → Where
  extended cond v w = record {
    conditions = w.conditions ++ (cond ∷ []);
    params = w.params ++ (v ∷ []);
    idx = w.idx + 1;
  }

  -- A condition on the parameter that is added with it.
  extended-Means :
      (cond : Condition) (v : SqlValue) (test : Bool) (w : Where) {b : Bool}
      → ((ps : List SqlValue) → get_elem? ps w.idx ≡ some v → meets ps c cond ≡ test)
      → Means w b
      → Means (extended cond v w) (b && test)
  extended-Means cond v test w {b} tests (count, holds) = (
    omega (arith, length-append w.params (v ∷ [])),
    λ rest.
        let shift = append_assoc w.params (v ∷ []) rest in
        let found : get_elem? (w.params ++ (v ∷ rest)) w.idx ≡ some v =
          rw count (get_elem?-end w.params v rest) in
        rw shift (
          all-append (meets (w.params ++ (v ∷ rest)) c) w.conditions (cond ∷ [])
          ∙ ground (arith, holds (v ∷ rest), tests (w.params ++ (v ∷ rest)) found)),
  )

  add_param-Means :
      (col : Column) (v : SqlValue) (w : Where) (b : Bool)
      → Means w b
      → Means (add_param col v w) (b && sql_eq v (value_of col c))
  unfolding add_param
  add_param-Means col v w b m =
      extended-Means (equal col (w.idx + 1)) v (sql_eq v (value_of col c)) w
        (λ ps e. on_param-last ps w.idx (λ u. sql_eq u (value_of col c)) e) m

  add_path-Means :
      (p : Str) (w : Where) (b : Bool) → Means w b → Means (add_path p w) (b && contains p c.path)
  unfolding add_path
  add_path-Means p w b m =
      extended-Means (path_has (w.idx + 1)) (text p) (contains p c.path) w
        (λ ps e. on_param-last ps w.idx (λ u. text_in u c.path) e) m

  if_some-Means :
      {A : Type 0} (o : Option A) (step : A → Where → Where) (test : A → Bool)
      → ((a : A) (w : Where) (b : Bool) → Means w b → Means (step a w) (b && test a))
      → (w : Where) (b : Bool) → Means w b
      → Means (if_some o step w) (b && asked o test)
  unfolding if_some
  if_some-Means none step test steps w b m = (m.0, λ rest. ground (arith, m.1 rest))
  if_some-Means (some a) step test steps w b m = steps a w b m

  no_filter-Means : Means no_filter true
  no_filter-Means = (refl, λ rest. refl)

  -- Each row meets the conditions of a query exactly if the query matches it.
  pub build_where-Means : (q : AuditQuery) → Means (build_where q) (matched q c)
  unfolding build_where
  build_where-Means q =
      if_some-Means q.request_id _ (λ r. str_eq r c.request_id)
        (λ r. add_param-Means Column.request_id (text r)) _ _
        (if_some-Means q.to_ts _ (λ t. eq_ℤ t c.ts) (λ t. add_param-Means Column.ts (integer t)) _ _
          (if_some-Means q.from_ts _ (λ t. eq_ℤ t c.ts) (λ t. add_param-Means Column.ts (integer t))
            _ _
            (if_some-Means q.status _ (λ s. eq_ℤ (pos s) c.status)
              (λ s. add_param-Means Column.status (integer (pos s))) _ _
              (if_some-Means q.path _ (λ p. contains p c.path) add_path-Means _ _
                (if_some-Means q.method _ (λ m. str_eq m c.method)
                  (λ m. add_param-Means Column.method (text m)) _ _ no_filter-Means)))))
