-- ===== src/Security/RateLimiter.antt =====
-- src/security/rate_limiter.rs: the limit on the requests of a client. The limiter of the
-- `governor` crate is a parameter with its state.
pub mod Keys
use moxui.Prelude.{
  ℕ, ◌-◌, ◌/◌, ◌%◌, ◌^◌, List, [], ◌∷◌, ◌++◌, Str, Bool, Option, none, some, if◌then◌else◌, ◌==◌,
  ltb,
}

pub record RateLimitConfig : Type 0 where
  pub requests_per_second : ℕ
  pub burst_size : ℕ

pub record Quota : Type 0 where
  pub per_second : ℕ
  pub allow_burst : ℕ

-- `IpRateLimiter::new`; `none` is a panic.
unfoldable pub new : RateLimitConfig → Option Quota
new config =
    let rate =
      if ltb config.requests_per_second (2 ^ 32) then config.requests_per_second else 2 ^ 32 - 1 in
    if rate == 0
    then none
    else if config.burst_size == 0
    then none
    else some record { per_second = rate; allow_burst = config.burst_size }

-- The octets of an address, and the port.
pub data SocketAddr : Type 0 where
  v4 : ℕ → ℕ → ℕ → ℕ → ℕ → SocketAddr
  v6 : List ℕ → ℕ → SocketAddr

-- The sixteen bytes of the client's key.
unfoldable pub key_from_addr : SocketAddr → List ℕ
key_from_addr (v4 a b c d port) =
    a ∷ b ∷ c ∷ d ∷ (port / 256) ∷ (port % 256) ∷ 4 ∷ 0 ∷ 0 ∷ 0 ∷ 0 ∷ 0 ∷ 0 ∷ 0 ∷ 0 ∷ 0 ∷ []
key_from_addr (v6 octets port) = octets

-- `Uuid::nil()`.
abbrev pub nil_key : List ℕ
nil_key = 0 ∷ 0 ∷ 0 ∷ 0 ∷ 0 ∷ 0 ∷ 0 ∷ 0 ∷ 0 ∷ 0 ∷ 0 ∷ 0 ∷ 0 ∷ 0 ∷ 0 ∷ 0 ∷ []

-- The service: `check` notes a request of a key, `inner` is the rest of the stack, and `refused` is
-- the answer 429.
unfoldable pub call :
    {G S R : Type 0}
    → (List ℕ → G → G × Bool)
    → R
    → (S → S × R)
    → Option SocketAddr
    → G
    → S
    → G × S × R
unfolding key_from_addr
call check refused inner peer g s =
    let key : List ℕ = elim peer [ none ↦ nil_key | some addr ↦ key_from_addr addr ] in
    let (g', allowed) = check key g in
    let (s', r) = inner s in if allowed then (g', s', r) else (g', s, refused)
