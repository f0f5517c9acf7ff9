-- ===== src/Auth/Oidc/Pending.antt =====
-- src/auth/oidc.rs: a pending login is used once, and by whom.
use moxui.Prelude.{
  ℕ, ◌+◌, ◌<◌, Str, str_eq, str_eq_iff, str_eq_refl, Option-cases, none, some, if◌then◌else◌,
  Result, ok, err, ◌≡◌, refl, ap, ◌∙◌, arith, inl, inr,
}
use moxui.Prelude.Map.{get, get-remove}
use moxui.Auth.Oidc.{
  PendingOidcState, OidcUserInfo, OidcService, csrf_value, is_expired, check_callback,
  handle_callback, invalid_key,
}

module _ (exchange : PendingOidcState → Str → Result OidcUserInfo Str) where
  handle_callback-unknown :
      (service : OidcService) (now : ℕ) (key code state : Str)
      → get key service.state_store ≡ none
      → handle_callback exchange service now key code state ≡ (service, err invalid_key)
  unfolding handle_callback
  handle_callback-unknown service now key code state e = rw (handle_callback, e) refl

  left :
      (service : OidcService) (now : ℕ) (key code state other : Str)
      → get other (handle_callback exchange service now key code state).0.state_store
        ≡ (if str_eq key other then none else get other service.state_store)
  unfolding handle_callback
  left service now key code state other =
      ground (arith, get-remove key other service.state_store, str_eq_iff key other)

  check_callback-ok :
      (pending : PendingOidcState) (now : ℕ) (code state : Str) (info : OidcUserInfo)
      → check_callback exchange pending now code state ≡ ok info
      → (now < pending.created_at + 360_000)
        × (csrf_value state ≡ pending.csrf_token_secret)
        × (exchange pending code ≡ ok info)
  unfolding check_callback is_expired
  check_callback-ok pending now code state info h =
      ground (arith, str_eq_iff (csrf_value state) pending.csrf_token_secret)

  -- A callback leaves no pending login under its key, whatever it answers, and every other one as it
  -- was; the same key is refused from then on.
  pub handle_callback_once :
      (service : OidcService) (now later : ℕ) (key code state code' state' other : Str)
      → let service' = (handle_callback exchange service now key code state).0 in
        (get other service'.state_store
          ≡ (if str_eq key other then none else get other service.state_store))
        × (handle_callback exchange service' later key code' state' ≡ (service', err invalid_key))
  handle_callback_once service now later key code state code' state' other =
      let gone = left service now key code state key ∙ rw (str_eq_refl key) refl in
      (
        left service now key code state other,
        handle_callback-unknown (handle_callback exchange service now key code state).0 later key
            code' state' gone,
      )

  refused :
      (service : OidcService) (now : ℕ) (key code state : Str) (info : OidcUserInfo)
      → get key service.state_store ≡ none
      → (handle_callback exchange service now key code state).1 ≡ ok info
      → ⊥
  refused service now key code state info e h =
      let same = ap (λ r. r.1) (handle_callback-unknown service now key code state e) in cc

  -- A callback succeeds only for a pending login under its key that is less than six minutes old,
  -- with the secret in the provider's state, and with what the provider answered to the code.
  pub handle_callback-ok :
      (service : OidcService) (now : ℕ) (key code state : Str) (info : OidcUserInfo)
      → (handle_callback exchange service now key code state).1 ≡ ok info
      → (pending : PendingOidcState) × (get key service.state_store ≡ some pending)
        × (now < pending.created_at + 360_000)
        × (csrf_value state ≡ pending.csrf_token_secret)
        × (exchange pending code ≡ ok info)
  unfolding handle_callback
  handle_callback-ok service now key code state info h =
      elim (Option-cases (get key service.state_store)) [
        | inl absent ↦ absurd (refused service now key code state info absent h)
        | inr (pending, there) ↦
            let passed : check_callback exchange pending now code state ≡ ok info =
              rw (handle_callback, there) at h in
            let (young, csrf, answered) = check_callback-ok pending now code state info passed in
            (pending, there, young, csrf, answered)
      ]
