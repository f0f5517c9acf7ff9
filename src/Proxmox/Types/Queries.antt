-- ===== src/Proxmox/Types/Queries.antt =====
-- src/proxmox/types.rs and src/api/vms.rs: no query names a parameter twice.
use moxui.Prelude.{
  List, [], ◌∷◌, Str, str_eq, Bool, true, not, ◌&&◌, Option, none, some, ◌≡◌, refl, arith, map, any,
}
use moxui.Prelude.Map.{get, Unique}
use moxui.Proxmox.Types.{present}

abbrev pub distinct : List Str → Bool
distinct [] = true
distinct (key ∷ keys) = not (any (λ k. str_eq k key) keys) && distinct keys

-- The names that are given, if any.
abbrev pub names : List (Str × Option Str) → List Str
names fields = map (λ f. f.0) fields

get-present :
    (key : Str) (fields : List (Str × Option Str))
    → not (any (λ k. str_eq k key) (names fields)) ≡ true
    → get key (present fields) ≡ none
unfolding get present
get-present key [] h = refl
get-present key ((k, none) ∷ fields) h = ground (arith, h, get-present key fields)
get-present key ((k, some v) ∷ fields) h = ground (arith, h, get-present key fields)

-- Fields with different names give parameters with different names.
pub present-Unique :
    (fields : List (Str × Option Str)) → distinct (names fields) ≡ true → Unique (present fields)
unfolding present
present-Unique [] h = tt
present-Unique ((k, none) ∷ fields) h = present-Unique fields (ground (arith, h))
present-Unique ((k, some v) ∷ fields) h =
    (get-present k fields (ground (arith, h)), present-Unique fields (ground (arith, h)))
