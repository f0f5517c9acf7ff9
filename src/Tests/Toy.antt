-- ===== src/Tests/Toy.antt =====
-- A stand-in for the cryptographic crates, on which the examples compute.
use moxui.Prelude.{
  ℕ, List, [], ◌∷◌, codes, str_eq, str_eq_refl, true, false, none, some, refl, arith,
}
use moxui.Prelude.Int.{pos}
use moxui.Auth.Crypto.{Crypto}
use moxui.Auth.Jwt.{Claims, JwtService}
use moxui.Auth.Password.{hash_password, verify_password}
use moxui.Auth.Totp.Backup.{HashesVerify}
use moxui.Auth.Totp.Code.Window.{HasDigests}
use moxui.Auth.User.{User, UserStore, viewer}

abbrev pub digest : List ℕ
digest =
    1 ∷ 2 ∷ 3 ∷ 4 ∷ 5 ∷ 6 ∷ 7 ∷ 8 ∷ 9 ∷ 10 ∷ 11 ∷ 12 ∷ 13 ∷ 14 ∷ 15 ∷ 16 ∷ 17 ∷ 18 ∷ 19 ∷ 20 ∷ []

abbrev pub toy : Crypto
toy = record {
  sha256 = λ x. x;
  hex_encode = λ x. x;
  base64_no_pad = λ x. x;
  hmac_sha1 = λ key message. digest;
  bcrypt_hash = λ salt password cost. some password;
  bcrypt_verify = λ password hash. some (str_eq password hash);
}

pub toy-HasDigests : HasDigests toy
toy-HasDigests = λ key message. refl

pub toy-HashesVerify : HashesVerify toy
unfolding hash_password verify_password
toy-HashesVerify = λ salt password h e. ground (arith, e, str_eq_refl password)

-- The encoding of claims is the subject, and every token that is not empty decodes.
abbrev pub toy_claims : Claims
toy_claims = record {
  sub = codes "1";
  username = codes "ann";
  role = codes "viewer";
  iat = pos 0;
  exp = pos 60;
}

abbrev pub toy_jwt : JwtService
toy_jwt = record { encode = λ claims. some claims.sub; decode = λ now token. some toy_claims }

abbrev pub ann : User
ann = record {
  id = codes "1";
  username = codes "ann";
  display_name = codes "Ann";
  email = none;
  password_hash = codes "secret";
  role = viewer;
  enabled = true;
  totp_secret = none;
  totp_enabled = false;
  backup_codes = [];
}

-- A user with the second factor.
abbrev pub bob : User
bob = record ann {
  id = codes "2";
  username = codes "bob";
  totp_secret = some (codes "AE");
  totp_enabled = true;
  backup_codes = codes "11112222" ∷ codes "33334444" ∷ [];
}

abbrev pub accounts : UserStore
accounts = record {
  users = (codes "ann", ann) ∷ (codes "bob", bob) ∷ [];
  allowed_clusters = (codes "ann", codes "lab" ∷ []) ∷ (codes "bob", []) ∷ [];
}
