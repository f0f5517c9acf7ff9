-- ===== src/Api/Dashboard/Shown.antt =====
-- src/api/dashboard.rs: whose data the dashboard shows.
use moxui.Prelude.{
  map, List, [], ◌∷◌, Str, Bool, Bool-cases, true, false, keep_if, Option-cases, none, some, Result,
  ◌≡◌, refl, sym, ap, ◌∙◌, arith, inl, inr,
}
use mathlib.Core.Option
use moxui.Error.{AppError}
use moxui.Auth.Jwt.{Claims}
use moxui.Auth.User.{UserStore, user_allowed_clusters}
use moxui.State.{clients_for_user}
use moxui.Proxmox.Http.{Net}
use moxui.Proxmox.Types.{F64, VmResource, StorageResource}
use moxui.Proxmox.Call.{ProxmoxClient, Call}
use moxui.Api.Handler.{name_of}
use moxui.Api.Dashboard.{ClusterDashboard, Version, collect_cluster_dashboard}
use moxui.Api.Dashboard.Handlers.{is_shown, on_shown, collect_shown}

keep_if_all : (cs : List ProxmoxClient) → keep_if (λ c. true) cs ≡ cs
keep_if_all [] = refl
keep_if_all (c ∷ cs) = ap (◌∷◌ c) (keep_if_all cs)

keep_if-is_shown :
    (users : UserStore) (username : Str) (cs : List ProxmoxClient)
    → keep_if (is_shown users username) cs ≡ clients_for_user name_of cs users username
unfolding is_shown clients_for_user
keep_if-is_shown users username cs = elim (Option-cases (user_allowed_clusters users username)) [
  | inl free ↦ rw (is_shown, clients_for_user, free) (keep_if_all cs)
  | inr (clusters, bound) ↦ rw (is_shown, clients_for_user, bound) refl
]

module _ {W A : Type 0} (shown : ProxmoxClient → Bool) (m : Call W A) where
  no_client : (w : W) → (on_shown shown m w []).2 ≡ some []
  unfolding on_shown
  no_client w = refl

  hidden_client :
      (w : W) (c : ProxmoxClient) (cs : List ProxmoxClient)
      → shown c ≡ false
      → (on_shown shown m w (c ∷ cs)).2 ≡ (on_shown shown m w cs).2
  unfolding on_shown
  hidden_client w c cs hidden = rw (on_shown, hidden) refl

  lost_client :
      (w : W) (c : ProxmoxClient) (cs : List ProxmoxClient)
      → shown c ≡ true
      → (m none w c).2 ≡ none
      → (on_shown shown m w (c ∷ cs)).2 ≡ none
  unfolding on_shown
  lost_client w c cs seen lost = rw (on_shown, seen, lost) refl

  asked_client :
      (w : W) (c : ProxmoxClient) (cs : List ProxmoxClient) (a : Result A AppError)
      → shown c ≡ true
      → (m none w c).2 ≡ some a
      → (on_shown shown m w (c ∷ cs)).2
        ≡ Option.map (◌∷◌ (name_of c, a)) (on_shown shown m (m none w c).0 cs).2
  unfolding on_shown
  asked_client w c cs a seen answered = rw (on_shown, seen, answered) refl

  asked_names :
      (w : W) (cs : List ProxmoxClient) (rs : List (Str × Result A AppError))
      → (on_shown shown m w cs).2 ≡ some rs
      → map (λ r. r.0) rs ≡ map name_of (keep_if shown cs)
  asked_names w [] rs h = let g : [] ≡ rs = ground (arith, sym (no_client w) ∙ h) in rw (sym g) refl
  asked_names w (c ∷ cs) rs h = elim (Bool-cases (shown c)) [
    | inr hidden ↦
        let g = sym (hidden_client w c cs hidden) ∙ h in rw hidden (asked_names w cs rs g)
    | inl seen ↦ elim (Option-cases (m none w c).2) [
      | inl lost ↦ let g = sym (lost_client w c cs seen lost) ∙ h in ground (arith, g)
      | inr (a, answered) ↦
          let g = sym (asked_client w c cs a seen answered) ∙ h in
          elim (Option-cases (on_shown shown m (m none w c).0 cs).2) [
            | inl stopped ↦ let k = rw stopped at g in ground (arith, k)
            | inr (rest, gathered) ↦
                let k = rw gathered at g in
                let same : rs ≡ (name_of c, a) ∷ rest = ground (arith, k) in
                rw (same, seen) (ap (◌∷◌ (name_of c)) (asked_names (m none w c).0 cs rest gathered))
          ]
    ]
  ]

-- The dashboard asks exactly the clusters that the user is shown, in their order.
pub collect_shown-clients_for_user :
    (add_f64 : F64 → F64 → F64) {W : Type 0} (net : Net W)
    (parse_version : Str → Result Version Str) (parse_vms : Str → Result (List VmResource) Str)
    (parse_storages : Str → Result (List StorageResource) Str) (users : UserStore) (claims : Claims)
    (w : W) (cs : List ProxmoxClient) (rs : List (Str × Result ClusterDashboard AppError))
    → (collect_shown add_f64 net parse_version parse_vms parse_storages users claims w cs).2
      ≡ some rs
    → map (λ r. r.0) rs ≡ map name_of (clients_for_user name_of cs users claims.username)
unfolding collect_shown
collect_shown-clients_for_user add_f64 net parse_version parse_vms parse_storages users claims w cs
      rs h =
    asked_names (is_shown users claims.username)
      (collect_cluster_dashboard add_f64 net parse_version parse_vms parse_storages) w cs rs h
    ∙ ap (map name_of) (keep_if-is_shown users claims.username cs)
