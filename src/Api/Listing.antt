-- ===== src/Api/Listing.antt =====
-- src/api: the answers that gather a list from every cluster. `row` makes a row of a cluster's name
-- and an element.
pub mod Laws
use moxui.Prelude.{ℕ, map, List, [], ◌∷◌, ◌++◌, Str, Option, none, some, Result, ok, err}
use moxui.Prelude.Map
use moxui.Prelude.Map.{Map}
use moxui.Error.{AppError, to_string}
use moxui.Proxmox.Call.{Call, ProxmoxClient}
use moxui.Api.Handler.{Handler, on_each}

pub record Listing (R : Type 0) : Type 0 where
  pub rows : List R
  pub errors : Map Str

module _ {A R : Type 0} (row : Str → A → R) where
  -- The loop over the clusters' results.
  unfoldable pub merge : List (Str × Result (List A) AppError) → Listing R → Listing R
  unfolding to_string Map.insert
  merge [] acc = acc
  merge ((name, ok list) ∷ results) acc =
      merge results record acc { rows = acc.rows ++ map (row name) list }
  merge ((name, err e) ∷ results) acc =
      merge results record acc { errors = Map.insert name (to_string e) acc.errors }

  unfoldable pub gather : {W : Type 0} → Call W (List A) → Handler W (Listing R)
  unfolding on_each merge
  gather call w cs =
      let (w', cs', results) = on_each call w cs in
      (
        w',
        cs',
        elim results [
          | none ↦ none
          | some rs ↦ some (ok (merge rs record { rows = []; errors = [] }))
        ],
      )
