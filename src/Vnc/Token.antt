-- ===== src/Vnc/Token.antt =====
-- src/auth/vnc.rs: the signed tokens that open a console.
pub mod Laws
use moxui.Prelude.{
  ℕ, List, [], ◌∷◌, ◌++◌, Str, str_eq, codes, Bool, Option, none, some, if◌then◌else◌, ◌==◌, leb,
  Result, ok, err, ◌+◌,
}
use moxui.Prelude.Results.{◌>>=◌, ok_or}

abbrev pub vnc_token_ttl_secs : ℕ
vnc_token_ttl_secs = 300

pub record VncTokenClaims : Type 0 where
  pub sub : Str
  pub iat : ℕ
  pub exp : ℕ

-- The crates that the module calls: `serde_json` on claims, `hmac::Hmac<Sha256>` on a key and a
-- message, and the URL-safe unpadded base64 of the `base64` crate.
pub record TokenCrates : Type 0 where
  pub to_vec : VncTokenClaims → Option (List ℕ)
  pub from_slice : List ℕ → Option VncTokenClaims
  pub hmac_sha256 : List ℕ → List ℕ → Option (List ℕ)
  pub encode : List ℕ → Str
  pub decode : Str → Option (List ℕ)

pub data VncError : Type 0 where
  not_serialized bad_key malformed mismatch claims_invalid expired : VncError

-- `token.splitn(2, '.')`, when it has two parts.
unfoldable pub split_dot : Str → Option (Str × Str)
split_dot [] = none
split_dot (c ∷ s) =
    let rest = split_dot s in
    if c == 46 then some ([], s) else elim rest [ none ↦ none | some (a, b) ↦ some (c ∷ a, b) ]

-- `vmid` is in decimal digits.
unfoldable pub vnc_subject : Str → Str → Str → Str
vnc_subject cluster node vmid = codes "vnc:" ++ cluster ++ codes ":" ++ node ++ codes ":" ++ vmid

module _ (crates : TokenCrates) (secret : List ℕ) where
  unfoldable pub mint_vnc_token : VncTokenClaims → Result Str VncError
  mint_vnc_token claims = ok_or (crates.to_vec claims) not_serialized >>= λ payload.
      ok_or (crates.hmac_sha256 secret payload) bad_key >>= λ tag.
      ok (crates.encode payload ++ 46 ∷ crates.encode tag)

  unfoldable pub check_tag : List ℕ → List ℕ → ℕ → Result VncTokenClaims VncError
  check_tag payload tag now = ok_or (crates.hmac_sha256 secret payload) bad_key >>= λ expected.
      if str_eq expected tag
      then (ok_or (crates.from_slice payload) claims_invalid >>= λ claims.
          if leb claims.exp now then err expired else ok claims)
      else err mismatch

  unfoldable pub verify_vnc_token : Str → ℕ → Result VncTokenClaims VncError
  unfolding split_dot check_tag
  verify_vnc_token token now = ok_or (split_dot token) malformed >>= λ (a, b).
      ok_or (crates.decode a) malformed >>= λ payload.
      ok_or (crates.decode b) malformed >>= λ tag. check_tag payload tag now
