-- ===== src/Security/RateLimiter/Keys.antt =====
-- src/security/rate_limiter.rs: which requests share a limit.
use moxui.Prelude.{ℕ, ◌/◌, ◌%◌, ◌≡◌, ◌↔◌, arith}
use moxui.Security.RateLimiter.{v4, key_from_addr}

same_port : (m n : ℕ) → m / 256 ≡ n / 256 → m % 256 ≡ n % 256 → m ≡ n
same_port m n h k = omega arith

-- Two IPv4 clients have one key, and so share a limit, exactly if both their hosts and their ports
-- are the same.
pub key_from_addr_iff :
    (a b c d port a' b' c' d' port' : ℕ)
    → (key_from_addr (v4 a b c d port) ≡ key_from_addr (v4 a' b' c' d' port'))
      ↔ ((a ≡ a') × (b ≡ b') × (c ≡ c') × (d ≡ d') × (port ≡ port'))
unfolding key_from_addr
key_from_addr_iff a b c d port a' b' c' d' port' =
    (λ e. ground (arith, same_port port port'), λ e. ground arith)
