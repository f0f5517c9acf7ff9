-- ===== src/Auth/Crypto.antt =====
-- The cryptographic crates that src/auth calls. They are parameters of the model: a record of
-- functions, of which no definition assumes anything.
use moxui.Prelude.{ℕ, List, Str, Bool, Option}

pub record Crypto : Type 0 where
  -- `sha2::Sha256`, `hex::encode` and the unpadded standard base64 of the `base64` crate.
  pub sha256 : List ℕ → List ℕ
  pub hex_encode : List ℕ → Str
  pub base64_no_pad : List ℕ → Str
  -- `hmac::Hmac<Sha1>`: the key and the message.
  pub hmac_sha1 : List ℕ → List ℕ → List ℕ
  -- `bcrypt::hash` with its random salt and its cost, and `bcrypt::verify`; `none` is an error.
  pub bcrypt_hash : List ℕ → Str → ℕ → Option Str
  pub bcrypt_verify : Str → Str → Option Bool
