-- ===== src/Api/Gathered.antt =====
-- src/api: the answers that pass on what a path says in every cluster (ceph.rs, sdn.rs, firewall.rs
-- and ha_status of hagroups.rs). The field `found` is the object's `data`.
use moxui.Prelude.{List, [], ◌∷◌, Str, none, some, Result, ok, err}
use moxui.Prelude.Map
use moxui.Prelude.Map.{Map}
use moxui.Error.{AppError, to_string}
use moxui.Proxmox.Http.{Net}
use moxui.Proxmox.Client.{get}
use moxui.Api.Handler.{Handler, on_each}

pub record Gathered (T : Type 0) : Type 0 where
  pub found : Map T
  pub errors : Map Str

-- The loop over the clusters' results.
unfoldable pub sort_results :
    {T : Type 0} → List (Str × Result T AppError) → Gathered T → Gathered T
unfolding to_string Map.insert
sort_results [] acc = acc
sort_results ((name, ok value) ∷ results) acc =
    sort_results results record acc { found = Map.insert name value acc.found }
sort_results ((name, err e) ∷ results) acc =
    sort_results results record acc { errors = Map.insert name (to_string e) acc.errors }

-- `parse` decodes what the clusters answer.
unfoldable pub pass_on :
    {W T : Type 0} → Net W → (Str → Result T Str) → Str → Handler W (Gathered T)
unfolding on_each get sort_results
pass_on net parse path w cs =
    let (w', cs', results) = on_each (get net parse path) w cs in
    (
      w',
      cs',
      elim results [
        | none ↦ none
        | some rs ↦ some (ok (sort_results rs record { found = []; errors = [] }))
      ],
    )
