-- ===== src/Auth/Totp/Backup.antt =====
-- src/auth/totp.rs: backup codes. The hashes come from bcrypt, whose salts are arguments.
use moxui.Prelude.{
  is_some, ℕ, ◌%◌, ◌≡◌, refl, ap, List, [], ◌∷◌, ◌++◌, Str, Bool, true, false, not, ◌&&◌, Option,
  none, some, if◌then◌else◌, unwrap_or, arith, length, any, inl, inr, Bool-cases, ◌⊎◌,
}
use moxui.Prelude.Options.{◌>>=◌, >>=-eq-some}
use moxui.Auth.Crypto.{Crypto}
use moxui.Auth.Password.{hash_password, verify_password}
use moxui.Auth.Totp.Code.{pad_digits}

-- BACKUP_CODE_COUNT.
abbrev pub backup_code_count : ℕ
backup_code_count = 8

-- The plain codes and the hashes; `none` is the panic of `expect` where bcrypt fails. The draws are
-- a 32-bit number and a salt for each code.
unfoldable pub generate_from : Crypto → List (ℕ × List ℕ) → Option (List Str × List Str)
generate_from c [] = some ([], [])
generate_from c ((draw, salt) ∷ draws) =
    let code = pad_digits 8 (draw % 100000000) in
    hash_password c salt code >>= λ h.
    generate_from c draws >>= λ rest. some (code ∷ rest.0, h ∷ rest.1)

abbrev pub accepts : Crypto → Str → Str → Bool
accepts c code h = unwrap_or (verify_password c code h) false

-- The loop over the stored hashes: what remains, and whether one matched.
unfoldable pub spend : Crypto → Str → List Str → Bool → List Str × Bool
spend c code [] matched = ([], matched)
spend c code (h ∷ hs) matched =
    let hit = not matched && accepts c code h in
    let rest = spend c code hs (if hit then true else matched) in
    if hit then rest else (h ∷ rest.0, rest.1)

unfoldable pub verify_backup_code : Crypto → List Str → Str → Option (List Str)
unfolding spend
verify_backup_code c stored code =
    let (remaining, matched) = spend c code stored false in if matched then some remaining else none

spend_matched : (c : Crypto) (code : Str) (hs : List Str) → spend c code hs true ≡ (hs, true)
unfolding spend
spend_matched c code [] = refl
spend_matched c code (h ∷ hs) = ground (arith, spend_matched c code hs)

-- The first hash that accepts the code, with what stands before it and after it.
pub record FirstMatch (c : Crypto) (code : Str) (stored remaining : List Str) : Type 0 where
  pub before : List Str
  pub used : Str
  pub after : List Str
  pub splits : stored ≡ before ++ used ∷ after
  pub unmatched : any (accepts c code) before ≡ false
  pub matches : accepts c code used ≡ true
  pub rest : remaining ≡ before ++ after

spend-FirstMatch :
    (c : Crypto) (code : Str) (hs : List Str)
    → ((any (accepts c code) hs ≡ false) × (spend c code hs false ≡ (hs, false)))
      ⊎ ((remaining : List Str) × (spend c code hs false ≡ (remaining, true))
          × FirstMatch c code hs remaining)
unfolding spend
spend-FirstMatch c code [] = inl (refl, refl)
spend-FirstMatch c code (h ∷ hs) = elim (Bool-cases (accepts c code h)) [
  | inl e ↦ inr (
    hs,
    rw (e, spend_matched c code hs),
    record {
      before = [];
      used = h;
      after = hs;
      splits = refl;
      unmatched = refl;
      matches = e;
      rest = refl;
    },
  )
  | inr e ↦ elim (spend-FirstMatch c code hs) [
    | inl (a, s) ↦ inl (rw e a, rw (e, s))
    | inr (remaining, s, f) ↦ inr (
      h ∷ remaining,
      rw (e, s),
      record {
        before = h ∷ f.before;
        used = f.used;
        after = f.after;
        splits = ap (◌∷◌ h) f.splits;
        unmatched = rw e f.unmatched;
        matches = f.matches;
        rest = ap (◌∷◌ h) f.rest;
      },
    )
  ]
]

-- A code that no stored hash accepts is refused. Otherwise exactly the first hash that accepts it
-- is taken out, and all others stay in their order.
pub verify_backup_code-FirstMatch :
    (c : Crypto) (stored : List Str) (code : Str)
    → ((any (accepts c code) stored ≡ false) × (verify_backup_code c stored code ≡ none))
      ⊎ ((remaining : List Str) × (verify_backup_code c stored code ≡ some remaining)
          × FirstMatch c code stored remaining)
unfolding verify_backup_code
verify_backup_code-FirstMatch c stored code = elim (spend-FirstMatch c code stored) [
  | inl (a, s) ↦ inl (a, rw s)
  | inr (remaining, s, f) ↦ inr (remaining, rw s, f)
]

spend-any :
    (c : Crypto) (code : Str) (hs : List Str) → (spend c code hs false).1 ≡ any (accepts c code) hs
unfolding spend
spend-any c code [] = refl
spend-any c code (h ∷ hs) = elim (Bool-cases (accepts c code h)) [
  | inl e ↦ rw (e, spend_matched c code hs) refl
  | inr e ↦ rw (e, spend-any c code hs) refl
]

pub verify_backup_code-any :
    (c : Crypto) (stored : List Str) (code : Str)
    → is_some (verify_backup_code c stored code) ≡ any (accepts c code) stored
unfolding verify_backup_code
verify_backup_code-any c stored code = ground (arith, spend-any c code stored)

-- bcrypt accepts the password that a hash was made of.
abbrev pub HashesVerify : Crypto → Type 0
HashesVerify c =
    (salt : List ℕ) (password h : Str)
    → hash_password c salt password ≡ some h
    → verify_password c password h ≡ some true

unfoldable pub accepted_each : Crypto → List Str → List Str → Bool
accepted_each c [] [] = true
accepted_each c (code ∷ codes) (h ∷ hs) = accepts c code h && accepted_each c codes hs
accepted_each c codes hs = false

-- If bcrypt accepts what it hashed, codes that were generated come with hashes that accept them,
-- one for each draw.
pub generate_from-accepted :
    (c : Crypto) (draws : List (ℕ × List ℕ)) (plain hashed : List Str)
    → HashesVerify c
    → generate_from c draws ≡ some (plain, hashed)
    → (length plain ≡ length draws) × (accepted_each c plain hashed ≡ true)
unfolding generate_from accepted_each
generate_from-accepted c [] plain hashed v e = ground arith
generate_from-accepted c ((draw, salt) ∷ draws) plain hashed v e =
    let code = pad_digits 8 (draw % 100000000) in
    let (h, hashed_code, tail) = >>=-eq-some (hash_password c salt code) _ e in
    let (rest, others, pair) = >>=-eq-some (generate_from c draws) _ tail in
    let ih = generate_from-accepted c draws rest.0 rest.1 v others in
    ground (arith, ih, v salt code h hashed_code)
