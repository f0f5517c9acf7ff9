-- ===== src/Api/Dashboard/Handlers.antt =====
-- src/api/dashboard.rs: the dashboard of the clusters that the user is shown, and the user's own.
use moxui.Prelude.{
  List, [], ◌∷◌, Str, codes, str_eq, Bool, true, false, any, Option, none, some, Result, ok, err,
}
use mathlib.Core.Option
use moxui.Error.{AppError}
use moxui.Auth.Jwt.{Claims}
use moxui.Auth.User.{UserStore, user_allowed_clusters}
use moxui.Proxmox.Http.{Net}
use moxui.Proxmox.Types.{F64, VmResource, StorageResource}
use moxui.Proxmox.Call.{ProxmoxClient, Call}
use moxui.Api.Handler.{name_of}
use moxui.Api.Dashboard.{
  DashboardResponse, ClusterDashboard, Version, nothing, collect_cluster_dashboard,
  merge_dashboards,
}
use moxui.Dashboards.{Files, CustomDashboardConfig, Dashboards, get_dashboard, save_dashboard}

-- The clients that `clients_for_user` gives.
unfoldable pub is_shown : UserStore → Str → ProxmoxClient → Bool
is_shown users username c = elim (user_allowed_clusters users username) [
  | none ↦ true
  | some clusters ↦ any (λ a. str_eq a (name_of c)) clusters
]

-- `join_all` of a call on some of the clients. The calls run one after the other here.
unfoldable pub on_shown :
    {W A : Type 0}
    → (ProxmoxClient → Bool)
    → Call W A
    → W
    → List ProxmoxClient
    → W × List ProxmoxClient × Option (List (Str × Result A AppError))
on_shown shown m w [] = (w, [], some [])
on_shown shown m w (c ∷ cs) = elim (shown c) [
  | true ↦
      let (w', c', r) = m none w c in
      let (w'', cs', rs) = on_shown shown m w' cs in
      (w'', c' ∷ cs', elim r [ none ↦ none | some a ↦ Option.map (◌∷◌ (name_of c, a)) rs ])
  | false ↦ let (w'', cs', rs) = on_shown shown m w cs in (w'', c ∷ cs', rs)
]

module _ (add_f64 : F64 → F64 → F64) {W : Type 0} (net : Net W)
    (parse_version : Str → Result Version Str) (parse_vms : Str → Result (List VmResource) Str)
    (parse_storages : Str → Result (List StorageResource) Str) where
  -- What the clusters answer, each with its name.
  unfoldable pub collect_shown :
      UserStore
      → Claims
      → W
      → List ProxmoxClient
      → W × List ProxmoxClient × Option (List (Str × Result ClusterDashboard AppError))
  unfolding on_shown is_shown
  collect_shown users claims =
      on_shown (is_shown users claims.username)
        (collect_cluster_dashboard add_f64 net parse_version parse_vms parse_storages)

  unfoldable pub dashboard :
      UserStore
      → Claims
      → W
      → List ProxmoxClient
      → W × List ProxmoxClient × Option DashboardResponse
  unfolding collect_shown merge_dashboards
  dashboard users claims w cs =
      let (w', cs', results) = collect_shown users claims w cs in
      (
        w',
        cs',
        elim results [
          | none ↦ none
          | some rs ↦ some (merge_dashboards add_f64 rs record { clusters = []; totals = nothing })
        ],
      )

unfoldable pub get_custom_dashboard : Claims → Dashboards → CustomDashboardConfig
unfolding get_dashboard
get_custom_dashboard claims dashboards = get_dashboard claims.username dashboards

-- The answer is one text under `status` or `error`; its status is 200 in both cases.
unfoldable pub save_custom_dashboard :
    {W : Type 0}
    → Files W
    → Claims
    → CustomDashboardConfig
    → Dashboards
    → W
    → Dashboards × W × (Str × Str)
unfolding save_dashboard
save_custom_dashboard fs claims config dashboards w =
    let (dashboards', w', r) = save_dashboard fs claims.username config dashboards w in
    (
      dashboards',
      w',
      elim r [ ok u ↦ (codes "status", codes "saved") | err e ↦ (codes "error", e) ],
    )
