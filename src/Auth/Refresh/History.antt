-- ===== src/Auth/Refresh/History.antt =====
-- src/auth/refresh.rs: sequences of operations on the store, in any order and by any number of
-- requests.
use moxui.Prelude.{
  ℕ, ◌≡◌, ◌∙◌, refl, List, Str, str_eq, str_eq_iff, Bool, true, Option, none, some, if◌then◌else◌,
  arith, inl, inr, Bool-cases, Option-cases,
}
use moxui.Prelude.Int.{ℤ, ltb_ℤ}
use moxui.Prelude.Map
use moxui.Auth.Crypto.{Crypto}
use moxui.Auth.Refresh.{
  StoredRefreshToken, RefreshStore, set_revoked, hash_token, generate_token, issue, verify, revoke,
  revoke_all_for_user, rotate,
}
use moxui.Auth.Refresh.Ledger.{
  entry, revoke_if, entry-update, entry-insert, entry-revoke_family, revoke_active-revoke_family,
}
use moxui.Auth.Refresh.Valid.{
  IsValid, IsFresh, issue-IsValid, revoke-IsValid, revoke_all_for_user-IsValid,
}
use moxui.Auth.Refresh.Rotation.{
  fresh_record, verify-admit, rotate_unknown, rotate_expired, rotate_revoked, entry-rotate,
  rotate-IsValid,
}

-- A call that changes the store, with the values that it draws.
pub data Op : Type 0 where
  issues : Str → ℤ → Str → List ℕ → ℤ → Op
  revokes : Str → Op
  revokes_all : Str → Op
  rotates : Str → ℤ → ℤ → Str → List ℕ → ℤ → Op

unfoldable pub step : Crypto → RefreshStore → Op → RefreshStore
step c s (issues user_id ttl id buf now) = (issue c s user_id ttl id buf now).0
step c s (revokes id) = (revoke s id).0
step c s (revokes_all user_id) = (revoke_all_for_user s user_id).0
step c s (rotates raw ttl now id buf later) = (rotate c s raw ttl now id buf later).0

-- The ids and the hashes that a call draws are new.
abbrev pub DrawsFresh : Crypto → RefreshStore → Op → Type 0
DrawsFresh c s (issues user_id ttl id buf now) = IsFresh c s id buf
DrawsFresh c s (revokes id) = Unit {0}
DrawsFresh c s (revokes_all user_id) = Unit {0}
DrawsFresh c s (rotates raw ttl now id buf later) = IsFresh c s id buf

pub data Reach (c : Crypto) (s : RefreshStore) : RefreshStore → Type 0 where
  here : Reach c s s
  next : {t : RefreshStore} → Reach c s t → (o : Op) → DrawsFresh c t o → Reach c s (step c t o)

step-IsValid :
    (c : Crypto) (s : RefreshStore) (o : Op) → DrawsFresh c s o → IsValid s → IsValid (step c s o)
unfolding step
step-IsValid c s (issues user_id ttl id buf now) f v = issue-IsValid c s user_id ttl id buf now f v
step-IsValid c s (revokes id) f v = revoke-IsValid s id v
step-IsValid c s (revokes_all user_id) f v = revoke_all_for_user-IsValid s user_id v
step-IsValid c s (rotates raw ttl now id buf later) f v =
    rotate-IsValid c s raw ttl now id buf later f v

-- A valid store stays valid under every sequence of calls that draw new ids and new hashes: each
-- record stands under its own id, and neither an id nor a hash is ever stored twice.
pub Reach-IsValid : (c : Crypto) {s t : RefreshStore} → IsValid s → Reach c s t → IsValid t
Reach-IsValid c v here = v
Reach-IsValid c v (next {t} r o f) = step-IsValid c t o f (Reach-IsValid c v r)

-- What may become of a record: it may be revoked, and nothing else of it changes.
pub record Becomes (q r : StoredRefreshToken) : Type 0 where
  pub same_id : r.id ≡ q.id
  pub same_user : r.user_id ≡ q.user_id
  pub same_hash : r.token_hash ≡ q.token_hash
  pub same_expiry : r.expires_at ≡ q.expires_at
  pub stays_revoked : q.revoked ≡ true → r.revoked ≡ true

abbrev pub Kept : StoredRefreshToken → Option StoredRefreshToken → Type 0
Kept q o = (r : StoredRefreshToken) × (o ≡ some r) × Becomes q r

Kept-revoke_if :
    (p : StoredRefreshToken → Bool) (q : StoredRefreshToken) → Kept q (revoke_if p (some q))
Kept-revoke_if p q = (if p q then set_revoked q else q, refl, ground arith)

Kept-same : (q : StoredRefreshToken) → Kept q (some q)
Kept-same q = (q, refl, ground arith)

issue-Kept :
    (c : Crypto) (s : RefreshStore) (user_id : Str) (ttl : ℤ) (id : Str) (buf : List ℕ) (now : ℤ)
    (h : Str) (q : StoredRefreshToken)
    → IsFresh c s id buf
    → entry h s.tokens ≡ some q
    → Kept q (entry h (issue c s user_id ttl id buf now).0.tokens)
unfolding issue
issue-Kept c s user_id ttl id buf now h q f e = (
  q,
  ground (
    arith,
    f.1,
    str_eq_iff (hash_token c (generate_token c buf)) h,
    entry-insert id h (fresh_record c user_id ttl id buf now) s.tokens f.0 f.1,
  ),
  ground arith,
)

revoke-Kept :
    (s : RefreshStore) (id h : Str) (q : StoredRefreshToken)
    → IsValid s
    → entry h s.tokens ≡ some q
    → Kept q (entry h (revoke s id).0.tokens)
unfolding revoke IsValid
revoke-Kept s id h q v e = elim (Bool-cases (Map.contains_key id s.tokens)) [
  | inl k ↦
      rw (k, revoke) (rw (entry-update id h s.tokens v, e) (Kept-revoke_if (λ r. str_eq r.id id) q))
  | inr k ↦ rw (k, revoke) (rw e (Kept-same q))
]

rotate-Kept :
    (c : Crypto) (s : RefreshStore) (raw : Str) (ttl now : ℤ) (id : Str) (buf : List ℕ) (later : ℤ)
    (h : Str) (q : StoredRefreshToken)
    → IsFresh c s id buf
    → IsValid s
    → entry h s.tokens ≡ some q
    → Kept q (entry h (rotate c s raw ttl now id buf later).0.tokens)
rotate-Kept c s raw ttl now id buf later h q f v e =
    elim (Option-cases (entry (hash_token c raw) s.tokens)) [
      | inl u ↦ rw (rotate_unknown c s raw ttl now id buf later u, e) (Kept-same q)
      | inr (r, u) ↦ elim (Bool-cases (ltb_ℤ r.expires_at now)) [
        | inl x ↦ rw (rotate_expired c s raw ttl now id buf later r v u x, e) (Kept-same q)
        | inr x ↦ elim (Bool-cases r.revoked) [
          | inl y ↦
              rw
                (
                  rotate_revoked c s raw ttl now id buf later r v u x y,
                  entry-revoke_family r.user_id h s.tokens,
                  e,
                )
                (Kept-revoke_if (λ w. str_eq w.user_id r.user_id) q)
          | inr y ↦ rw (entry-rotate c s raw ttl now id buf later f v r u x y h, e) (rotated r u)
        ]
      ]
    ]
  where
    rotated :
        (r : StoredRefreshToken)
        → entry (hash_token c raw) s.tokens ≡ some r
        → Kept q (
            if str_eq (hash_token c (generate_token c buf)) h
            then some (fresh_record c r.user_id ttl id buf later)
            else if str_eq (hash_token c raw) h
            then some (set_revoked r)
            else some q)
    rotated r u = (
      if str_eq (hash_token c raw) h then set_revoked r else q,
      ground (
        arith,
        f.1,
        str_eq_iff (hash_token c (generate_token c buf)) h,
        str_eq_iff (hash_token c raw) h,
      ),
      ground (arith, str_eq_iff (hash_token c raw) h),
    )

step-Kept :
    (c : Crypto) (s : RefreshStore) (o : Op) (h : Str) (q : StoredRefreshToken)
    → DrawsFresh c s o
    → IsValid s
    → entry h s.tokens ≡ some q
    → Kept q (entry h (step c s o).tokens)
unfolding step revoke_all_for_user
step-Kept c s (issues user_id ttl id buf now) h q f v e =
    issue-Kept c s user_id ttl id buf now h q f e
step-Kept c s (revokes id) h q f v e = revoke-Kept s id h q v e
step-Kept c s (revokes_all user_id) h q f v e =
    rw (revoke_active-revoke_family user_id s.tokens, entry-revoke_family user_id h s.tokens, e)
      (Kept-revoke_if (λ r. str_eq r.user_id user_id) q)
step-Kept c s (rotates raw ttl now id buf later) h q f v e =
    rotate-Kept c s raw ttl now id buf later h q f v e

Becomes-trans : {p q r : StoredRefreshToken} → Becomes p q → Becomes q r → Becomes p r
Becomes-trans a b = record {
  same_id = b.same_id ∙ a.same_id;
  same_user = b.same_user ∙ a.same_user;
  same_hash = b.same_hash ∙ a.same_hash;
  same_expiry = b.same_expiry ∙ a.same_expiry;
  stays_revoked = λ e. b.stays_revoked (a.stays_revoked e);
}

-- A record in a valid store is kept under every sequence of calls that draw new ids and new hashes:
-- its id, user, hash and expiry never change, and once revoked it stays revoked.
pub Reach-Kept :
    (c : Crypto) {s t : RefreshStore} (h : Str) (q : StoredRefreshToken)
    → IsValid s
    → entry h s.tokens ≡ some q
    → Reach c s t
    → Kept q (entry h t.tokens)
Reach-Kept c h q v e here = (q, e, ground arith)
Reach-Kept c h q v e (next {t} r o f) =
    let (q', e', b) = Reach-Kept c h q v e r in
    let (q'', e'', b') = step-Kept c t o h q' f (Reach-IsValid c v r) e' in
    (q'', e'', Becomes-trans b b')

-- A token that is revoked in a valid store is never admitted again, whatever sequence of calls that
-- draw new ids and new hashes comes in between, and at whatever time.
pub spent_forever :
    (c : Crypto) {s t : RefreshStore} (raw : Str) (q : StoredRefreshToken) (now : ℤ)
    → IsValid s
    → entry (hash_token c raw) s.tokens ≡ some q
    → q.revoked ≡ true
    → Reach c s t
    → verify c t raw now ≡ none
spent_forever c {t} raw q now v e used r =
    let (q', e', b) = Reach-Kept c (hash_token c raw) q v e r in
    rw (verify-admit c t raw now, e', b.stays_revoked used)
