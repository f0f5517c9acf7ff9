-- ===== src/Auth/Refresh/Admission.antt =====
-- src/auth/refresh.rs: which tokens `verify` admits after `issue` and `rotate`.
use moxui.Prelude.{
  ℕ, ◌≡◌, ap, List, Str, str_eq, str_eq_iff, str_eq_refl, false, none, some, if◌then◌else◌, arith,
}
use moxui.Prelude.Int.{ℤ, ltb_ℤ, add_i64}
use moxui.Auth.Crypto.{Crypto}
use moxui.Auth.Refresh.{
  StoredRefreshToken, RefreshStore, hash_token, generate_token, issue, verify, rotate,
}
use moxui.Auth.Refresh.Ledger.{entry, entry-insert, verify_scan-admit}
use moxui.Auth.Refresh.Valid.{IsValid, IsFresh}
use moxui.Auth.Refresh.Rotation.{
  fresh_record, fresh_answer, verify-admit, rotate_live, entry-rotate,
}

-- A token that was issued is admitted up to and including its expiry, for the user it was issued
-- to, provided that its id and its hash are new to the store. A token with another hash is answered
-- as before.
pub issue-verify :
    (c : Crypto) (s : RefreshStore) (user_id : Str) (ttl : ℤ) (id : Str) (buf : List ℕ) (now : ℤ)
    (raw : Str) (t : ℤ)
    → IsFresh c s id buf
    → verify c (issue c s user_id ttl id buf now).0 raw t ≡ (
        if str_eq (hash_token c (issue c s user_id ttl id buf now).1.token) (hash_token c raw)
        then if ltb_ℤ (add_i64 now ttl) t then none else some (id, user_id)
        else verify c s raw t)
unfolding issue verify
issue-verify c s user_id ttl id buf now raw t fresh =
    rw
      (
        verify_scan-admit,
        entry-insert id (hash_token c raw) (fresh_record c user_id ttl id buf now) s.tokens fresh.0
            fresh.1,
        verify_scan-admit,
      )
      (ground arith)

module _ (c : Crypto) (s : RefreshStore) (raw : Str) (ttl now : ℤ) (id : Str) (buf : List ℕ)
    (later : ℤ) (fresh : IsFresh c s id buf) (v : IsValid s) (r : StoredRefreshToken)
    (e : entry (hash_token c raw) s.tokens ≡ some r) (live : ltb_ℤ r.expires_at now ≡ false)
    (unused : r.revoked ≡ false) where
  -- Rotating a stored token that is neither expired nor revoked, in a valid store, with a new id
  -- and a new hash, gives out a token of the same user. From then on the new token is admitted up
  -- to its expiry, the old one never, and every token with another hash is answered as before.
  pub rotate-verify :
      let s' = (rotate c s raw ttl now id buf later).0 in
      ((rotate c s raw ttl now id buf later).1 ≡ some (fresh_answer c r.user_id ttl id buf later))
      × ((other : Str) (t : ℤ)
          → verify c s' other t ≡ (
              if str_eq (hash_token c (generate_token c buf)) (hash_token c other)
              then if ltb_ℤ (add_i64 later ttl) t then none else some (id, r.user_id)
              else if str_eq (hash_token c raw) (hash_token c other)
              then none
              else verify c s other t))
  rotate-verify = (
    ap (λ p. p.1) (rotate_live c s raw ttl now id buf later r v e live unused),
    λ other t.
        rw
          (
            verify-admit,
            entry-rotate c s raw ttl now id buf later fresh v r e live unused (hash_token c other),
            verify-admit,
          )
          (ground arith),
  )

  -- The old token has another hash than the new one.
  pub rotate_spent : (t : ℤ) → verify c (rotate c s raw ttl now id buf later).0 raw t ≡ none
  rotate_spent t =
      rw (rotate-verify.1 raw t, str_eq_refl)
        (ground
          (arith, fresh.1, e, str_eq_iff (hash_token c (generate_token c buf)) (hash_token c raw)))
