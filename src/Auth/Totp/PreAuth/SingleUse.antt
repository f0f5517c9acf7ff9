-- ===== src/Auth/Totp/PreAuth/SingleUse.antt =====
-- src/auth/totp.rs: a pre-auth session is handed out once, and only before it expires.
use moxui.Prelude.{
  ◌+◌, ◌≡◌, Str, str_eq, str_eq_iff, str_eq_refl, Option, none, some, if◌then◌else◌, arith, inl,
  inr, Option-cases,
}
use moxui.Prelude.Int.{ℤ, ◌≤ℤ◌}
use moxui.Prelude.Map
use moxui.Prelude.Map.{
  Map, get-insert, get-remove, get-update, Unique, get-retain, length-retain-le,
}
use moxui.Auth.Totp.PreAuth.{
  PreAuthSession, PreAuthStore, set_consumed, is_pending, consume, purge_expired, count,
}

-- What `consume` hands out for the session that is stored under a token.
abbrev pub handed_out : ℤ → Option PreAuthSession → Option PreAuthSession
handed_out now none = none
handed_out now (some x) = if is_pending now x then some (set_consumed x) else none

pub consume-handed_out :
    (s : PreAuthStore) (token : Str) (now : ℤ)
    → (consume s token now).1 ≡ handed_out now (Map.get token s.sessions)
unfolding consume
consume-handed_out s token now = elim (Option-cases (Map.get token s.sessions)) [
  | inl e ↦ rw (e, consume)
  | inr (x, e) ↦
      ground (arith, e, str_eq_refl token, get-update token token set_consumed s.sessions)
]

-- The sessions after `consume`: the one under the token is gone.
pub get-consume :
    (s : PreAuthStore) (token other : Str) (now : ℤ)
    → Map.get other (consume s token now).0.sessions
      ≡ (if str_eq token other then none else Map.get other s.sessions)
unfolding consume
get-consume s token other now = elim (Option-cases (Map.get token s.sessions)) [
  | inl e ↦ ground (arith, e, str_eq_iff token other)
  | inr (x, e) ↦ ground (
    arith,
    e,
    str_eq_iff token other,
    get-remove token other s.sessions,
    get-remove token other (Map.update token set_consumed s.sessions),
    get-update token other set_consumed s.sessions,
  )
]

-- `consume` hands out the stored session, marked as consumed, exactly if it has not expired and has
-- not been consumed. In every case it leaves no session under the token, so a second `consume` at
-- any time gives nothing, and it leaves the other sessions alone.
pub consume_once :
    (s : PreAuthStore) (token : Str) (now : ℤ)
    → let s' = (consume s token now).0 in
      ((consume s token now).1 ≡ handed_out now (Map.get token s.sessions))
      × ((later : ℤ) → (consume s' token later).1 ≡ none)
      × ((other : Str)
          → Map.get other s'.sessions
            ≡ (if str_eq token other then none else Map.get other s.sessions))
consume_once s token now = (
  consume-handed_out s token now,
  λ later. rw (consume-handed_out, get-consume, str_eq_refl),
  λ other. get-consume s token other now,
)

-- Purging takes out what it reports, and no later `consume` of any token can tell that it happened,
-- provided that the clock does not run backwards and each token stands there once.
pub purge_expired-consume :
    (s : PreAuthStore) (now : ℤ) (token : Str) (later : ℤ)
    → Unique s.sessions
    → now ≤ℤ later
    → (count (purge_expired s now).0 + (purge_expired s now).1 ≡ count s)
      × ((consume (purge_expired s now).0 token later).1 ≡ (consume s token later).1)
unfolding purge_expired count
purge_expired-consume s now token later u h = (
  omega (arith, length-retain-le (is_pending now) s.sessions),
  rw
      (
        consume-handed_out (record { sessions = Map.retain (is_pending now) s.sessions }) token
            later,
        consume-handed_out s token later,
        get-retain (is_pending now) token s.sessions u,
      )
      (ground arith),
)
