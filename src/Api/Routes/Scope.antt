-- ===== src/Api/Routes/Scope.antt =====
-- src/api/mod.rs and src/auth/middleware.rs: which routes the cluster guard covers, and which
-- cluster it checks.
use moxui.Prelude.{
  ℕ, all, any, keep_if, get_elem?, List, [], ◌∷◌, Str, codes, str_eq, str_eq_iff, Bool, true, false,
  not, ◌&&◌, some, ◌≡◌, refl, subst, ◌==◌, arith, zero, suc,
}
use moxui.Auth.Middleware.{extract_cluster_from_path, is_empty}
use moxui.Auth.Middleware.Paths.{join_slash, IsSegment, AreSegments, extract_cluster_from_path-join}
use moxui.Api.Routes.{Segment, literal, param, segments_of, protected, cluster_scoped}

-- The segments of a path that a pattern describes, with `env` for its parameters.
abbrev pub fill : (Str → Str) → List Segment → List Str
fill env [] = []
fill env (literal s ∷ segments) = s ∷ fill env segments
fill env (param name ∷ segments) = env name ∷ fill env segments

-- A literal is a segment of a path.
abbrev pub is_whole : Segment → Bool
is_whole (literal s) = not (is_empty s) && all (λ c. not (c == b'/')) s
is_whole (param name) = true

-- `/api/v1/{resource}/:cluster/…`.
abbrev pub is_scoped : List Segment → Bool
is_scoped (literal a ∷ literal v ∷ literal r ∷ param c ∷ rest) =
    str_eq a (codes "api")
    && (str_eq v (codes "v1")
        && (is_whole (literal r) && (str_eq c (codes "cluster") && all is_whole rest)))
is_scoped other = false

abbrev pub names_cluster : Segment → Bool
names_cluster (literal s) = false
names_cluster (param name) = str_eq name (codes "cluster")

whole_segments :
    (env : Str → Str) (segments : List Segment)
    → ((name : Str) → IsSegment (env name))
    → all is_whole segments ≡ true
    → AreSegments (fill env segments)
unfolding IsSegment
whole_segments env [] h w = tt
whole_segments env (literal [] ∷ segments) h w = ground (arith, w)
whole_segments env (literal (b ∷ s) ∷ segments) h w = (
  ((λ e. ground (arith, e)), ground (arith, w)),
  whole_segments env segments h (ground (arith, w)),
)
whole_segments env (param name ∷ segments) h w =
    (h name, whole_segments env segments h (ground (arith, w)))

scoped_segments :
    (env : Str → Str) (r : Str) (rest : List Segment)
    → ((name : Str) → IsSegment (env name))
    → (is_whole (literal r) && all is_whole rest) ≡ true
    → extract_cluster_from_path
        (join_slash (codes "api" ∷ codes "v1" ∷ r ∷ env (codes "cluster") ∷ fill env rest))
      ≡ some (env (codes "cluster"))
unfolding str_eq
scoped_segments env r rest h w =
    extract_cluster_from_path-join
      (codes "api" ∷ codes "v1" ∷ r ∷ env (codes "cluster") ∷ fill env rest)
      (whole_segments env
        (literal (codes "api") ∷ literal (codes "v1") ∷ literal r ∷ param (codes "cluster") ∷ rest)
        h w)

scoped_lem :
    (env : Str → Str) (segments : List Segment)
    → ((name : Str) → IsSegment (env name))
    → is_scoped segments ≡ true
    → extract_cluster_from_path (join_slash (fill env segments)) ≡ some (env (codes "cluster"))
scoped_lem env [] h s = ground (arith, s)
scoped_lem env (param x ∷ segments) h s = ground (arith, s)
scoped_lem env (literal a ∷ []) h s = ground (arith, s)
scoped_lem env (literal a ∷ param x ∷ segments) h s = ground (arith, s)
scoped_lem env (literal a ∷ literal v ∷ []) h s = ground (arith, s)
scoped_lem env (literal a ∷ literal v ∷ param x ∷ segments) h s = ground (arith, s)
scoped_lem env (literal a ∷ literal v ∷ literal r ∷ []) h s = ground (arith, s)
scoped_lem env (literal a ∷ literal v ∷ literal r ∷ literal x ∷ segments) h s = ground (arith, s)
scoped_lem env (literal a ∷ literal v ∷ literal r ∷ param c ∷ rest) h s =
    let ea : a ≡ codes "api" = ground (arith, s, str_eq_iff a (codes "api")) in
    let ev : v ≡ codes "v1" = ground (arith, s, str_eq_iff v (codes "v1")) in
    let ec : c ≡ codes "cluster" = ground (arith, s, str_eq_iff c (codes "cluster")) in
    let w : (is_whole (literal r) && all is_whole rest) ≡ true = ground (arith, s) in
    rw (ea, ev, ec) (scoped_segments env r rest h w)

get_elem?-all :
    {A : Type 0} (p : A → Bool) (xs : List A) (i : ℕ) (x : A)
    → all p xs ≡ true
    → get_elem? xs i ≡ some x
    → p x ≡ true
get_elem?-all p [] i x h e = ground (arith, e)
get_elem?-all p (y ∷ xs) zero x h e =
    let same : y ≡ x = ground (arith, e) in subst (λ z. p z ≡ true) same (ground (arith, h))
get_elem?-all p (y ∷ xs) (suc i) x h e = get_elem?-all p xs i x (ground (arith, h)) e

cluster_scoped_lem : all (λ pattern. is_scoped (segments_of pattern)) cluster_scoped ≡ true
unfolding cluster_scoped segments_of str_eq
cluster_scoped_lem = refl

-- For every route behind the cluster guard, and every path that its pattern describes, the guard
-- checks the segment that stands for `:cluster`.
pub extract_cluster_from_path-cluster_scoped :
    (i : ℕ) (pattern : Str) (env : Str → Str)
    → get_elem? cluster_scoped i ≡ some pattern
    → ((name : Str) → IsSegment (env name))
    → extract_cluster_from_path (join_slash (fill env (segments_of pattern)))
      ≡ some (env (codes "cluster"))
extract_cluster_from_path-cluster_scoped i pattern env e h =
    scoped_lem env (segments_of pattern) h
      (get_elem?-all (λ p. is_scoped (segments_of p)) cluster_scoped i pattern cluster_scoped_lem e)

-- The route that writes to high-availability groups names a cluster, and is the only one of those
-- behind require_auth alone that does.
pub protected_lem :
    keep_if (λ pattern. any names_cluster (segments_of pattern)) protected
    ≡ codes "/api/v1/hagroups/:cluster/:group" ∷ []
unfolding protected segments_of str_eq
protected_lem = refl
