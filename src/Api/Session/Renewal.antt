-- ===== src/Api/Session/Renewal.antt =====
-- src/api/auth.rs: renewing and ending a session.
use moxui.Prelude.{
  ◌≡◌, refl, sym, Str, str_eq, str_eq_iff, str_eq_refl, false, Option, none, some, if◌then◌else◌,
  arith, Bool-cases, inl, inr, Option-cases,
}
use moxui.Prelude.Int.{ℤ, ◌≤ℤ◌, ltb_ℤ, add_i64}
use moxui.Prelude.Map
use moxui.Auth.Crypto.{Crypto}
use moxui.Auth.Jwt.{JwtService}
use moxui.Auth.Refresh
use moxui.Auth.Refresh.{
  StoredRefreshToken, RefreshStore, IssuedRefreshToken, set_revoked, hash_token, generate_token,
  default_refresh_ttl_secs,
}
use moxui.Auth.Refresh.Admission.{rotate-verify, rotate_spent}
use moxui.Auth.Refresh.Ledger.{entry, admit, entry-update, revoke_if-entry_id, entry_id_ne}
use moxui.Auth.Refresh.Rotation.{verify-admit}
use moxui.Auth.Refresh.Valid.{IsValid, IsFresh}
use moxui.Auth.User.{User, get_by_id}
use moxui.Api.Session.{SessionState, Draws, logged_out, refreshed, claims_of, refresh, logout}

-- What is not admitted stays so as time goes on.
admit_later :
    (now t : ℤ) (o : Option StoredRefreshToken) → now ≤ℤ t → admit now o ≡ none → admit t o ≡ none
admit_later now t none le e = refl
admit_later now t (some r) le e = ground (arith, le, e)

-- An admitted entry is the one that its id revokes.
admit-entry :
    (now : ℤ) (h : Str) (m : Map.Map StoredRefreshToken) (found : Str × Str)
    → admit now (entry h m) ≡ some found
    → (r : StoredRefreshToken) × (entry h m ≡ some r) × (r.id ≡ found.0)
admit-entry now h m found e = elim (Option-cases (entry h m)) [
  | inl n ↦ let g = rw n at e in ground (arith, g)
  | inr (r, n) ↦ let g = rw n at e in (r, n, ground (arith, g))
]

entry-revoke :
    (s : RefreshStore) (g h : Str) (r : StoredRefreshToken)
    → IsValid s
    → entry h s.tokens ≡ some r
    → entry g (Refresh.revoke s r.id).0.tokens
      ≡ (if str_eq h g then some (set_revoked r) else entry g s.tokens)
unfolding Refresh.revoke IsValid Map.contains_key
entry-revoke s g h r v e = elim (Option-cases (Map.get r.id s.tokens)) [
  | inl n ↦ ground (arith, entry_id_ne r.id h s.tokens r v n e, str_eq_refl r.id)
  | inr (q, n) ↦ rw (n, entry-update r.id g s.tokens v, revoke_if-entry_id g h s.tokens r v e) refl
]

module _ (c : Crypto) (jwt : JwtService) (state : SessionState) (d : Draws) (token : Str) where
  -- The store after a renewal is the one that the rotation leaves, whatever the answer.
  refresh-store :
      (refresh c jwt state d token).0.refresh_store
      ≡ (Refresh.rotate c state.refresh_store token default_refresh_ttl_secs d.expiry_now
          d.refresh_id d.refresh_buf d.refresh_now).0
  unfolding refresh
  refresh-store = elim (Option-cases rotated) [
    | inl e ↦ rw (refresh, e) refl
    | inr (new, e) ↦ elim (Option-cases (get_by_id state.users new.user_id)) [
      | inl f ↦ rw (refresh, e, f) refl
      | inr (user, f) ↦
          elim (Option-cases (jwt.encode (claims_of user d.claims_now state.jwt_lifetime_secs))) [
            | inl g ↦ rw (refresh, e, f, g) refl
            | inr (t, g) ↦ rw (refresh, e, f, g) refl
          ]
    ]
  ]
    where
      rotated : Option IssuedRefreshToken
      rotated =
          (Refresh.rotate c state.refresh_store token default_refresh_ttl_secs d.expiry_now
            d.refresh_id d.refresh_buf d.refresh_now).1

  module _ (r : StoredRefreshToken)
      (fresh : IsFresh c state.refresh_store d.refresh_id d.refresh_buf)
      (valid : IsValid state.refresh_store)
      (e : entry (hash_token c token) state.refresh_store.tokens ≡ some r)
      (live : ltb_ℤ r.expires_at d.expiry_now ≡ false) (unused : r.revoked ≡ false) where
    -- A refresh token that a valid store holds, neither expired nor revoked, is spent by a renewal
    -- whatever the answer: it is admitted at no time afterwards. The id and the hash of the new
    -- token are new to the store.
    pub refresh_spent :
        (t : ℤ) → Refresh.verify c (refresh c jwt state d token).0.refresh_store token t ≡ none
    refresh_spent t = rw refresh-store (
        rotate_spent c state.refresh_store token default_refresh_ttl_secs d.expiry_now d.refresh_id
          d.refresh_buf d.refresh_now fresh valid r e live unused t)

    -- A refresh token that a valid store holds, neither expired nor revoked, renews the session of
    -- its user when the user is known and the claims can be encoded: the answer carries the encoded
    -- claims and a new token, which is admitted for the same user up to its expiry. The id and the
    -- hash of the new token are new to the store.
    pub refresh-live :
        (user : User) (jwt_token : Str)
        → get_by_id state.users r.user_id ≡ some user
        → jwt.encode (claims_of user d.claims_now state.jwt_lifetime_secs) ≡ some jwt_token
        → ((refresh c jwt state d token).1
            ≡ refreshed (record {
              token = jwt_token;
              expires_in = state.jwt_lifetime_secs;
              refresh_token = generate_token c d.refresh_buf;
            }))
          × ((t : ℤ)
              → Refresh.verify c
                  (refresh c jwt state d token).0.refresh_store
                  (generate_token c d.refresh_buf)
                  t
                ≡ (if ltb_ℤ (add_i64 d.refresh_now default_refresh_ttl_secs) t
                    then none
                    else some (d.refresh_id, r.user_id)))
    unfolding refresh
    refresh-live user jwt_token u j =
        let (rotated, admitted) =
          rotate-verify c state.refresh_store token default_refresh_ttl_secs d.expiry_now
            d.refresh_id d.refresh_buf d.refresh_now fresh valid r e live unused in
        (
          rw (refresh, rotated, u, j) refl,
          λ t. rw (refresh-store, admitted (generate_token c d.refresh_buf) t, str_eq_refl) refl,
        )

  -- Logging out always succeeds. Afterwards a valid store admits the token at no time from the
  -- request on, and answers every token with another hash as before.
  pub logout-verify :
      (other : Str) (t : ℤ)
      → IsValid state.refresh_store
      → d.expiry_now ≤ℤ t
      → ((logout c jwt state d token).1 ≡ logged_out)
        × (Refresh.verify c (logout c jwt state d token).0.refresh_store other t ≡ (
            if str_eq (hash_token c token) (hash_token c other)
            then none
            else Refresh.verify c state.refresh_store other t))
  unfolding logout
  logout-verify other t valid le =
      elim (Option-cases (Refresh.verify c state.refresh_store token d.expiry_now)) [
        | inl e ↦
            rw (logout, e)
              (
                refl,
                elim (Bool-cases (str_eq (hash_token c token) (hash_token c other))) [
                  | inl y ↦
                      let late = admit_later d.expiry_now t _ le (rw verify-admit at e) in
                      rw
                        (
                          y,
                          verify-admit,
                          sym ((str_eq_iff (hash_token c token) (hash_token c other)).0 y),
                        )
                        late
                  | inr n ↦ rw n refl
                ],
              )
        | inr (found, e) ↦
            let (r, stored, same) =
              admit-entry d.expiry_now (hash_token c token) state.refresh_store.tokens found
                (rw verify-admit at e) in
            rw (logout, e, sym same)
              (
                refl,
                rw
                    (
                      verify-admit,
                      entry-revoke state.refresh_store (hash_token c other) (hash_token c token) r
                          valid stored,
                      verify-admit,
                    )
                    (ground arith),
              )
      ]
