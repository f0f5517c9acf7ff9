-- ===== src/Auth/Password.antt =====
-- src/auth/password.rs.
use moxui.Prelude.{ℕ, List, Str, Bool, Option}
use moxui.Auth.Crypto.{Crypto}

-- The cost factor is 12.
unfoldable pub hash_password : Crypto → List ℕ → Str → Option Str
hash_password c salt password = c.bcrypt_hash salt password 12

unfoldable pub verify_password : Crypto → Str → Str → Option Bool
verify_password c password hash = c.bcrypt_verify password hash
