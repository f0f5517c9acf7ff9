-- ===== src/Auth/Middleware/Paths.antt =====
-- src/auth/middleware.rs: which segment of a path is taken for the cluster.
use moxui.Prelude.{
  ◌≡◌, ◌≢◌, refl, ap, List, [], ◌∷◌, ◌++◌, Str, true, not, ◌==◌, keep_if, arith, all,
}
use moxui.Auth.Middleware.{split_slash, is_empty, fourth, extract_cluster_from_path}

-- A path as its segments, each behind a slash.
pub join_slash : List Str → Str
join_slash [] = []
join_slash (seg ∷ segs) = b'/' ∷ (seg ++ join_slash segs)

-- A segment holds at least one byte and no slash.
unfoldable pub IsSegment : Str → Type 0
IsSegment s = (s ≢ []) × (all (λ c. not (c == b'/')) s ≡ true)

abbrev pub AreSegments : List Str → Type 0
AreSegments [] = Unit {0}
AreSegments (s ∷ ss) = IsSegment s × AreSegments ss

split_segment :
    (s : Str) (segs : List Str)
    → all (λ c. not (c == b'/')) s ≡ true
    → AreSegments segs
    → split_slash (s ++ join_slash segs) ≡ s ∷ segs
unfolding split_slash join_slash IsSegment
split_segment [] [] h a = refl
split_segment [] (s ∷ segs) h a = ap (◌∷◌ []) (split_segment s segs a.0.1 a.1)
split_segment (c ∷ s) segs h a = ground (arith, split_segment s segs)

keep_segments : (segs : List Str) → AreSegments segs → keep_if (λ s. not (is_empty s)) segs ≡ segs
unfolding IsSegment
keep_segments [] a = refl
keep_segments ([] ∷ segs) a = absurd (a.0.0 refl)
keep_segments ((c ∷ s) ∷ segs) a = ap (◌∷◌ (c ∷ s)) (keep_segments segs a.1)

-- Of a path that is written as segments, each behind a slash, the fourth segment is taken for the
-- cluster if the first two are "api" and "v1", and otherwise there is no cluster.
pub extract_cluster_from_path-join :
    (segs : List Str) → AreSegments segs → extract_cluster_from_path (join_slash segs) ≡ fourth segs
unfolding extract_cluster_from_path join_slash split_slash IsSegment
extract_cluster_from_path-join [] a = refl
extract_cluster_from_path-join (s ∷ segs) a =
    rw (split_segment s segs a.0.1 a.1) (ap fourth (keep_segments (s ∷ segs) a))
