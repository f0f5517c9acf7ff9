-- ===== src/Api/Listing/Laws.antt =====
-- src/api: what the gathered lists hold.
use moxui.Prelude.{
  map, List, [], ◌∷◌, ◌++◌, Str, str_eq, Bool, false, ◌||◌, Result, ok, err, ◌≡◌, refl, sym, ◌∙◌,
  arith,
}
use moxui.Prelude.Map.{insert, contains_key, get-insert}
use moxui.Error.{AppError, to_string}
use moxui.Api.Listing.{Listing, merge}
use mathlib.Core.List.{append_assoc, append-nil}

module _ {A R : Type 0} (row : Str → A → R) where
  -- The rows of the clusters that answered, in the order of the clusters.
  abbrev pub answered : List (Str × Result (List A) AppError) → List R
  answered [] = []
  answered ((name, ok list) ∷ results) = map (row name) list ++ answered results
  answered ((name, err e) ∷ results) = answered results

  -- The cluster of this name gave an error.
  abbrev pub failed : Str → List (Str × Result (List A) AppError) → Bool
  failed key [] = false
  failed key ((name, ok list) ∷ results) = failed key results
  failed key ((name, err e) ∷ results) = str_eq name key || failed key results

  merge-rows :
      (results : List (Str × Result (List A) AppError)) (acc : Listing R)
      → (merge row results acc).rows ≡ acc.rows ++ answered results
  unfolding merge
  merge-rows [] acc = sym (append-nil acc.rows)
  merge-rows ((name, ok list) ∷ results) acc =
      merge-rows results record acc { rows = acc.rows ++ map (row name) list }
      ∙ append_assoc acc.rows (map (row name) list) (answered results)
  merge-rows ((name, err e) ∷ results) acc =
      merge-rows results record acc { errors = insert name (to_string e) acc.errors }

  merge-errors :
      (key : Str) (results : List (Str × Result (List A) AppError)) (acc : Listing R)
      → contains_key key (merge row results acc).errors
        ≡ (failed key results || contains_key key acc.errors)
  unfolding merge contains_key
  merge-errors key [] acc = refl
  merge-errors key ((name, ok list) ∷ results) acc =
      merge-errors key results record acc { rows = acc.rows ++ map (row name) list }
  merge-errors key ((name, err e) ∷ results) acc = ground (
    arith,
    merge-errors key results record acc { errors = insert name (to_string e) acc.errors },
    get-insert name key (to_string e) acc.errors,
  )

  -- The gathered list has the rows of the clusters that answered, in the order of the clusters, and
  -- an error under the name of a cluster exactly if a cluster of this name gave one.
  pub merge_lem :
      (key : Str) (results : List (Str × Result (List A) AppError))
      → ((merge row results record { rows = []; errors = [] }).rows ≡ answered results)
        × (contains_key key (merge row results record { rows = []; errors = [] }).errors
            ≡ failed key results)
  unfolding contains_key
  merge_lem key results = (
    merge-rows results _,
    ground (arith, merge-errors key results record { rows = []; errors = [] }),
  )
