-- ===== src/State/Readiness.antt =====
-- src/state.rs and src/api/health.rs: the cached readiness of the clusters. An instant is a number
-- of nanoseconds. Of a Proxmox client only its name and whether it answers a ping matter here.
pub mod Fresh
use moxui.Prelude.{
  ℕ, ◌*◌, ◌^◌, ◌-◌, map, List, [], ◌∷◌, Str, codes, str_eq, Bool, true, false, Option, none, some,
  if◌then◌else◌, all, ltb, not, keep_if, any, ◌≡◌, refl,
}
use moxui.Prelude.Map
use moxui.Prelude.Map.{Map}

pub data ClusterStatus : Type 0 where
  healthy : ClusterStatus
  unhealthy : ClusterStatus

unfoldable pub is_healthy : ClusterStatus → Bool
is_healthy healthy = true
is_healthy unhealthy = false

abbrev pub readiness_cache_ttl : ℕ
readiness_cache_ttl = 10 * 10 ^ 9

pub record ReadinessSnapshot : Type 0 where
  pub clusters : Map ClusterStatus
  pub checked_at : ℕ

unfoldable pub all_healthy : ReadinessSnapshot → Bool
unfolding is_healthy Map.values
all_healthy snap = all is_healthy (Map.values snap.clusters)

-- The response of the readiness probe: its status, and the label of each cluster if one is not
-- healthy.
unfoldable pub readyz : ReadinessSnapshot → ℕ × Option (Map Str)
unfolding all_healthy
readyz snap = if all_healthy snap then (200, none) else (
  503,
  some (
      map (λ e. (e.0, elim e.1 [ healthy ↦ codes "healthy" | unhealthy ↦ codes "unhealthy" ]))
        snap.clusters),
)

-- Whether the cluster needs a fresh probe.
unfoldable pub stale : ℕ → Map (ClusterStatus × ℕ) → Str → Bool
unfolding Map.get
stale now cache name = elim (Map.get name cache) [
  | none ↦ true
  | some entry ↦ ltb readiness_cache_ttl (now - entry.1)
]

-- `ping` is the answer of each client to the probe, and `clock` reads the time at which the answer
-- is stored.
module _ {Client : Type 0} (name : Client → Str) (ping : Client → Bool) (clock : Client → ℕ) where
  unfoldable pub store : List Client → Map (ClusterStatus × ℕ) → Map (ClusterStatus × ℕ)
  unfolding Map.insert
  store [] cache = cache
  store (c ∷ cs) cache =
      store cs (Map.insert (name c) (if ping c then healthy else unhealthy, clock c) cache)

  unfoldable pub readiness :
      List Client → ℕ → Map (ClusterStatus × ℕ) → Map (ClusterStatus × ℕ) × ReadinessSnapshot
  unfolding store stale
  readiness clients now cache =
      let cache' = store (keep_if (λ c. stale now cache (name c)) clients) cache in
      (cache', record { clusters = map (λ e. (e.0, e.1.0)) cache'; checked_at = now })
