-- ===== src/Api/Cluster.antt =====
-- src/api/cluster.rs: the handlers about the clusters themselves.
use moxui.Prelude.{List, [], ◌∷◌, Str, codes, none, some, Result, ok, err}
use moxui.Prelude.Map
use moxui.Prelude.Map.{Map}
use moxui.Error.{AppError}
use moxui.Proxmox.Http.{Net}
use moxui.Proxmox.Client.{get}
use moxui.Api.Handler.{Handler, answer, ◌>>=◌, on_each}

pub record ClusterStatus (T : Type 0) : Type 0 where
  pub clusters : List (Str × T)
  pub errors : Map Str

-- The loop over the clusters' results. An error is only logged.
unfoldable pub keep_ok : {T : Type 0} → List (Str × Result T AppError) → Map T → Map T
unfolding Map.insert
keep_ok [] found = found
keep_ok ((name, ok value) ∷ results) found = keep_ok results (Map.insert name value found)
keep_ok ((name, err e) ∷ results) found = keep_ok results found

-- `parse` decodes what the clusters answer.
module _ {W T : Type 0} (net : Net W) (parse : Str → Result T Str) where
  unfoldable pub collect_aggregated : Str → Handler W (Map T)
  unfolding on_each get keep_ok
  collect_aggregated path w cs =
      let (w', cs', results) = on_each (get net parse path) w cs in
      (w', cs', elim results [ none ↦ none | some rs ↦ some (ok (keep_ok rs [])) ])

  unfoldable pub cluster_status : Handler W (ClusterStatus T)
  unfolding collect_aggregated
  cluster_status = do
    found ← collect_aggregated (codes "cluster/status")
    answer record { clusters = found; errors = [] }

  unfoldable pub cluster_config : Handler W (List (Str × T))
  unfolding collect_aggregated
  cluster_config = collect_aggregated (codes "cluster/config")

  unfoldable pub cluster_options : Handler W (List (Str × T))
  unfolding collect_aggregated
  cluster_options = collect_aggregated (codes "cluster/options")

  unfoldable pub cluster_log : Handler W (List (Str × T))
  unfolding collect_aggregated
  cluster_log = collect_aggregated (codes "cluster/log")

  unfoldable pub cluster_tasks : Handler W (List (Str × T))
  unfolding collect_aggregated
  cluster_tasks = collect_aggregated (codes "cluster/tasks")
