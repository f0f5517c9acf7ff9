-- ===== src/Auth/Jwt.antt =====
-- src/auth/jwt.rs: the claims of a token. The `jsonwebtoken` crate with its keys is a parameter.
use moxui.Prelude.{Str, Option}
use moxui.Prelude.Int.{ℤ}

pub record Claims : Type 0 where
  pub sub : Str
  pub username : Str
  pub role : Str
  pub iat : ℤ
  pub exp : ℤ

-- `JwtService::encode` and `JwtService::decode`; `none` is an error. `decode` sees the clock.
pub record JwtService : Type 0 where
  pub encode : Claims → Option Str
  pub decode : ℤ → Str → Option Claims
