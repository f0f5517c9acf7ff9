-- ===== src/Tests/Requests.antt =====
-- src/auth/middleware.rs on small requests.
use moxui.Prelude.{err, Result, List, [], ◌∷◌, Str, codes, ok}
use moxui.Auth.Jwt.{Claims}
use moxui.Auth.Middleware.{Refusal}

abbrev segments : List Str
segments = codes "api" ∷ codes "v1" ∷ codes "vms" ∷ codes "lab" ∷ []

abbrev refusal : Refusal → Result Str Refusal
refusal r = err r

-- A handler that answers with the user's name.
abbrev whoami : Claims → Result Str Refusal
whoami claims = ok claims.username
