-- ===== src/State/Clients.antt =====
-- src/state.rs: which clients a user is shown, against which clusters the user may reach.
use moxui.Prelude.{
  ◌≡◌, ◌≢◌, refl, sym, ap, List, [], ◌∷◌, Str, str_eq, Bool, true, Option, none, some, any, keep_if,
}
use moxui.Prelude.Map
use mathlib.Core.Path.{fun_ext}
use moxui.Auth.User.{UserStore, user_can_access_cluster, user_allowed_clusters}
use moxui.State.{clients_for_user}

-- The access check for each form of the stored restriction.
access_of : (o : Option (List Str)) → Str → Bool
access_of none cluster = true
access_of (some []) cluster = true
access_of (some (r ∷ rs)) cluster = any (λ a. str_eq a cluster) (r ∷ rs)

user_can_access_cluster_lem :
    (users : UserStore) (username cluster : Str) (o : Option (List Str))
    → Map.get username users.allowed_clusters ≡ o
    → user_can_access_cluster users username cluster ≡ access_of o cluster
unfolding user_can_access_cluster access_of
user_can_access_cluster_lem users username cluster none e = rw (e, user_can_access_cluster)
user_can_access_cluster_lem users username cluster (some []) e = rw (e, user_can_access_cluster)
user_can_access_cluster_lem users username cluster (some (r ∷ rs)) e =
    rw (e, user_can_access_cluster)

module _ {ℓ} {Client : Type ℓ} (name : Client → Str) where
  keep_if_none : (cs : List Client) → keep_if (λ c. any (λ a. str_eq a (name c)) []) cs ≡ []
  keep_if_none [] = refl
  keep_if_none (c ∷ cs) = keep_if_none cs

  keep_if_all :
      (p : Client → Bool) (cs : List Client) → ((c : Client) → p c ≡ true) → keep_if p cs ≡ cs
  keep_if_all p [] h = refl
  keep_if_all p (c ∷ cs) h = rw (h c) (ap (◌∷◌ c) (keep_if_all p cs h))

  -- Unless the restriction stored for the user is empty, the user is shown exactly the clients of
  -- the clusters that the access check admits, in their order.
  pub clients_for_user-access :
      (clients : List Client) (users : UserStore) (username : Str)
      → user_allowed_clusters users username ≢ some []
      → clients_for_user name clients users username
        ≡ keep_if (λ c. user_can_access_cluster users username (name c)) clients
  unfolding clients_for_user user_allowed_clusters access_of
  clients_for_user-access clients users username h =
      shown (Map.get username users.allowed_clusters) refl
    where
      shown :
          (o : Option (List Str))
          → Map.get username users.allowed_clusters ≡ o
          → clients_for_user name clients users username
            ≡ keep_if (λ c. user_can_access_cluster users username (name c)) clients
      shown none e =
          rw (e, clients_for_user)
            (sym (
              keep_if_all _ clients
                λ c. user_can_access_cluster_lem users username (name c) none e))
      shown (some []) e = absurd (h e)
      shown (some (r ∷ rs)) e =
          rw (e, clients_for_user)
            (ap (λ p. keep_if p clients)
              (fun_ext
                λ c. sym (user_can_access_cluster_lem users username (name c) (some (r ∷ rs)) e)))

  -- A user with an empty restriction, which the access check reads as "all clusters", is shown no
  -- client, although the check admits every one.
  pub clients_for_user_empty :
      (clients : List Client) (users : UserStore) (username : Str)
      → user_allowed_clusters users username ≡ some []
      → (clients_for_user name clients users username ≡ [])
        × (keep_if (λ c. user_can_access_cluster users username (name c)) clients ≡ clients)
  unfolding clients_for_user user_allowed_clusters access_of
  clients_for_user_empty clients users username h = (
    rw (h, clients_for_user) (keep_if_none clients),
    keep_if_all _ clients λ c. user_can_access_cluster_lem users username (name c) (some []) h,
  )
