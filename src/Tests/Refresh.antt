-- ===== src/Tests/Refresh.antt =====
-- src/auth/refresh.rs on a store with one token.
use moxui.Prelude.{[], ◌∷◌, Str, codes, false, none, some, ◌≡◌, refl, if◌then◌else◌, str_eq}
use moxui.Prelude.Int.{ℤ, pos, ltb_ℤ, add_i64}
use moxui.Prelude.Map
use moxui.Auth.Refresh.{
  StoredRefreshToken, RefreshStore, hash_token, generate_token, verify, rotate, set_revoked,
}
use moxui.Auth.Refresh.Admission.{rotate-verify}
use moxui.Auth.Refresh.History.{Op, issues, here, next, step, Reach-IsValid, spent_forever}
use moxui.Auth.Refresh.Ledger.{entry}
use moxui.Auth.Refresh.Replay.{LockedOut, rotate-LockedOut}
use moxui.Auth.Refresh.Rotation.{fresh_answer}
use moxui.Auth.Refresh.Valid.{IsValid, IsFresh}
use moxui.Tests.Toy.{toy}

abbrev pub live : StoredRefreshToken
live = record {
  id = codes "a";
  user_id = codes "1";
  token_hash = codes "old";
  expires_at = pos 100;
  revoked = false;
  created_at = pos 0;
}

abbrev pub spent : StoredRefreshToken
spent = set_revoked live

abbrev pub held : RefreshStore
held = record { tokens = (codes "a", live) ∷ [] }

abbrev pub held_spent : RefreshStore
held_spent = record { tokens = (codes "a", spent) ∷ [] }

pub held-IsValid : IsValid held
unfolding IsValid Map.get entry
held-IsValid = (refl, refl, refl, tt)

held_spent-IsValid : IsValid held_spent
unfolding IsValid Map.get entry
held_spent-IsValid = (refl, refl, refl, tt)

pub held-IsFresh : IsFresh toy held (codes "b") (codes "new")
unfolding Map.get entry hash_token generate_token str_eq
held-IsFresh = (refl, refl)

held_spent-IsFresh : IsFresh toy held_spent (codes "b") (codes "new")
unfolding Map.get entry hash_token generate_token str_eq
held_spent-IsFresh = (refl, refl)

pub held_entry : entry (hash_token toy (codes "old")) held.tokens ≡ some live
unfolding entry hash_token str_eq
held_entry = refl

held_spent-entry : entry (hash_token toy (codes "old")) held_spent.tokens ≡ some spent
unfolding entry hash_token str_eq
held_spent-entry = refl

abbrev issue_new : Op
issue_new = issues (codes "1") (pos 50) (codes "b") (codes "new") (pos 7)

spent_forever_example : verify toy (step toy held_spent issue_new) (codes "old") (pos 9) ≡ none
spent_forever_example =
    spent_forever toy {s = held_spent} {t = step toy held_spent issue_new} (codes "old") spent
      (pos 9) held_spent-IsValid held_spent-entry refl (next here issue_new held_spent-IsFresh)

Reach-IsValid_example : IsValid (step toy held issue_new)
Reach-IsValid_example =
    Reach-IsValid toy {s = held} {t = step toy held issue_new} held-IsValid
      (next here issue_new held-IsFresh)

rotate-verify_example :
    let s' = (rotate toy held (codes "old") (pos 50) (pos 9) (codes "b") (codes "new") (pos 9)).0 in
    ((rotate toy held (codes "old") (pos 50) (pos 9) (codes "b") (codes "new") (pos 9)).1
      ≡ some (fresh_answer toy (codes "1") (pos 50) (codes "b") (codes "new") (pos 9)))
    × ((other : Str) (t : ℤ)
        → verify toy s' other t ≡ (
            if str_eq (hash_token toy (generate_token toy (codes "new"))) (hash_token toy other)
            then if ltb_ℤ (add_i64 (pos 9) (pos 50)) t then none else some (codes "b", codes "1")
            else if str_eq (hash_token toy (codes "old")) (hash_token toy other)
            then none
            else verify toy held other t))
rotate-verify_example =
    rotate-verify toy held (codes "old") (pos 50) (pos 9) (codes "b") (codes "new") (pos 9)
      held-IsFresh held-IsValid live held_entry refl refl

rotate-LockedOut_example :
    ((rotate toy held_spent (codes "old") (pos 50) (pos 9) (codes "b") (codes "new") (pos 9)).1
      ≡ none)
    × LockedOut toy held_spent
        (rotate toy held_spent (codes "old") (pos 50) (pos 9) (codes "b") (codes "new") (pos 9)).0
        (codes "1")
rotate-LockedOut_example =
    rotate-LockedOut toy held_spent (codes "old") (pos 50) (pos 9) (codes "b") (codes "new") (pos 9)
      held_spent-IsValid spent held_spent-entry refl refl
