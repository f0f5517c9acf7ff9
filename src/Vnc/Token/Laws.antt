-- ===== src/Vnc/Token/Laws.antt =====
-- src/auth/vnc.rs: which tokens are accepted.
use moxui.Prelude.{
  ℕ, ◌<◌, ◌≡◌, ◌↔◌, refl, List, [], ◌∷◌, ◌++◌, Str, str_eq, str_eq_iff, str_eq_refl, true, some,
  ◌==◌, arith, inl, inr, Bool-cases, Option-cases, ok, err, leb, if◌then◌else◌, all, not,
}
use moxui.Prelude.Results.{ok_or-eq-ok}
use moxui.Vnc.Token.{
  VncTokenClaims, TokenCrates, malformed, expired, split_dot, mint_vnc_token, check_tag,
  verify_vnc_token,
}

split_dot-append :
    (a b : Str) → all (λ c. not (c == 46)) a ≡ true → split_dot (a ++ 46 ∷ b) ≡ some (a, b)
unfolding split_dot
split_dot-append [] b plain = refl
split_dot-append (c ∷ a) b plain = elim (Bool-cases (c == 46)) [
  | inl e ↦ ground arith
  | inr e ↦ rw (e, split_dot-append a b (ground arith)) refl
]

split_dot-eq :
    (s a b : Str)
    → split_dot s ≡ some (a, b)
    → (all (λ c. not (c == 46)) a ≡ true) × (s ≡ a ++ 46 ∷ b)
unfolding split_dot
split_dot-eq [] a b h = ground arith
split_dot-eq (c ∷ s) a b h = elim (Bool-cases (c == 46)) [
  | inl e ↦ ground (arith, h)
  | inr e ↦ elim (Option-cases (split_dot s)) [
    | inl n ↦ ground (arith, h)
    | inr ((a', b'), m) ↦
        let rest = split_dot-eq s a' b' m in
        let g = rw (split_dot, e, m) at h in ground (arith, rest, g)
  ]
]

module _ (crates : TokenCrates) (secret : List ℕ) where
  check_tag_iff :
      (payload tag : List ℕ) (now : ℕ) (claims : VncTokenClaims)
      → (check_tag crates secret payload tag now ≡ ok claims) ↔ (
          (crates.hmac_sha256 secret payload ≡ some tag)
          × (crates.from_slice payload ≡ some claims)
          × (now < claims.exp))
  unfolding check_tag
  check_tag_iff payload tag now claims = elim (Option-cases (crates.hmac_sha256 secret payload)) [
    | inl e ↦ rw (e, check_tag) (λ h. ground arith, λ (a, b, c). ground arith)
    | inr (expected, e) ↦ elim (Bool-cases (str_eq expected tag)) [
      | inr y ↦
          rw (e, check_tag, y) (λ h. ground arith, λ (a, b, c). ground (arith, str_eq_refl tag, y))
      | inl y ↦ elim (Option-cases (crates.from_slice payload)) [
        | inl m ↦ rw (e, check_tag, y, m) (λ h. ground arith, λ (a, b, c). ground arith)
        | inr (found, m) ↦
            rw (e, check_tag, y, m)
              (
                λ h. ground (arith, str_eq_iff expected tag, y),
                λ (a, b, c). ground (arith, a, b, c),
              )
      ]
    ]
  ]

  -- A token is accepted at a time exactly if it is two encoded parts around its first dot, a
  -- payload and the tag that the secret gives this payload, and the payload holds claims that
  -- expire after the time.
  pub verify_vnc_token_iff :
      (token : Str) (now : ℕ) (claims : VncTokenClaims)
      → (verify_vnc_token crates secret token now ≡ ok claims) ↔ (
          (a : Str) × (b : Str) × (payload : List ℕ) × (tag : List ℕ) × (all (λ c. not (c == 46)) a
            ≡ true)
          × (token ≡ a ++ 46 ∷ b)
          × (crates.decode a ≡ some payload)
          × (crates.decode b ≡ some tag)
          × (crates.hmac_sha256 secret payload ≡ some tag)
          × (crates.from_slice payload ≡ some claims)
          × (now < claims.exp))
  unfolding verify_vnc_token
  verify_vnc_token_iff token now claims = (
    λ h.
        let ((a, b), split, h1) = ok_or-eq-ok (split_dot token) malformed _ h in
        let (payload, left, h2) = ok_or-eq-ok (crates.decode a) malformed _ h1 in
        let (tag, right, h3) = ok_or-eq-ok (crates.decode b) malformed _ h2 in
        let (plain, same) = split_dot-eq token a b split in
        let (signed, holds, live) = (check_tag_iff payload tag now claims).0 h3 in
        (a, b, payload, tag, plain, same, left, right, signed, holds, live),
    λ (a, b, payload, tag, plain, same, left, right, signed, holds, live).
        rw (same, split_dot-append a b plain, left, right)
          ((check_tag_iff payload tag now claims).1 (signed, holds, live)),
  )

  -- The claims of a minted token are read back until they expire, when the serializer and the
  -- base64 of the claims and of the tag read back what they wrote, the base64 of the claims holds
  -- no dot, and the secret is one the HMAC takes.
  pub verify_vnc_token-mint :
      (claims : VncTokenClaims) (payload tag : List ℕ) (now : ℕ)
      → crates.to_vec claims ≡ some payload
      → crates.from_slice payload ≡ some claims
      → crates.hmac_sha256 secret payload ≡ some tag
      → crates.decode (crates.encode payload) ≡ some payload
      → crates.decode (crates.encode tag) ≡ some tag
      → all (λ c. not (c == 46)) (crates.encode payload) ≡ true
      → now < claims.exp
      → (token : Str) × (mint_vnc_token crates secret claims ≡ ok token)
        × (verify_vnc_token crates secret token now ≡ ok claims)
  unfolding mint_vnc_token
  verify_vnc_token-mint claims payload tag now written read signed left right plain live =
      let token = crates.encode payload ++ 46 ∷ crates.encode tag in
      (
        token,
        rw (written, signed) refl,
        (verify_vnc_token_iff token now claims).1 (
          crates.encode payload,
          crates.encode tag,
          payload,
          tag,
          plain,
          refl,
          left,
          right,
          signed,
          read,
          live,
        ),
      )

  -- A minted token is answered by the expiry of its claims alone.
  pub verify_vnc_token_minted :
      (claims : VncTokenClaims) (payload tag : List ℕ) (token : Str) (now : ℕ)
      → mint_vnc_token crates secret claims ≡ ok token
      → crates.to_vec claims ≡ some payload
      → crates.from_slice payload ≡ some claims
      → crates.hmac_sha256 secret payload ≡ some tag
      → crates.decode (crates.encode payload) ≡ some payload
      → crates.decode (crates.encode tag) ≡ some tag
      → all (λ c. not (c == 46)) (crates.encode payload) ≡ true
      → verify_vnc_token crates secret token now
        ≡ (if leb claims.exp now then err expired else ok claims)
  unfolding mint_vnc_token verify_vnc_token check_tag
  verify_vnc_token_minted claims payload tag token now minted written read signed left right plain =
      let made : token ≡ crates.encode payload ++ 46 ∷ crates.encode tag =
        let g = rw (written, signed) at minted in ground (arith, g) in
      rw
        (
          made,
          split_dot-append (crates.encode payload) (crates.encode tag) plain,
          left,
          right,
          signed,
          str_eq_refl tag,
          read,
        )
        refl
