-- ===== src/State/Readiness/Fresh.antt =====
-- src/state.rs: the cached readiness that a snapshot does not ask for again.
use moxui.Prelude.{
  ℕ, List, [], ◌∷◌, Str, str_eq_iff, Bool, false, keep_if, if◌then◌else◌, ◌≡◌, refl, arith,
}
use moxui.Prelude.Map.{Map, get, insert, get-insert}
use moxui.State.Readiness.{ClusterStatus, healthy, unhealthy, stale, store, readiness}

module _ {Client : Type 0} (name : Client → Str) (ping : Client → Bool) (clock : Client → ℕ)
    (now : ℕ) (cache : Map (ClusterStatus × ℕ)) (key : Str)
    (fresh : stale now cache key ≡ false) where
  store-fresh :
      (clients : List Client) (acc : Map (ClusterStatus × ℕ))
      → get key (store name ping clock (keep_if (λ c. stale now cache (name c)) clients) acc)
        ≡ get key acc
  unfolding store
  store-fresh [] acc = refl
  store-fresh (c ∷ cs) acc =
      let entry : ClusterStatus × ℕ = (if ping c then healthy else unhealthy, clock c) in
      ground (
        arith,
        fresh,
        str_eq_iff (name c) key,
        get-insert (name c) key entry acc,
        store-fresh cs acc,
        store-fresh cs (insert (name c) entry acc),
      )

  -- An entry of the cache that is not older than its time to live is kept as it is.
  pub readiness-fresh :
      (clients : List Client)
      → get key (readiness name ping clock clients now cache).0 ≡ get key cache
  unfolding readiness
  readiness-fresh clients = store-fresh clients cache
