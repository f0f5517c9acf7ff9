-- ===== src/Audit/Middleware.antt =====
-- src/audit/middleware.rs: the middleware around every request. `next` is the rest of the stack,
-- which may work on the database too.
pub mod Logged
use moxui.Prelude.{
  ℕ, ◌-◌, ◌^◌, List, [], ◌∷◌, Str, codes, str_eq, Bool, not, ◌&&◌, ◌||◌, Option, none, some,
  if◌then◌else◌, ltb, leb, any,
}
use mathlib.Core.Option
use moxui.Prelude.Int.{ℤ}
use moxui.Prelude.Map
use moxui.Prelude.Map.{Map}
use moxui.Prelude.Options.{◌>>=◌}
use moxui.Auth.Jwt.{Claims}
use moxui.Audit.Store.{AuditEntry, Sqlite, log}

abbrev pub request_id_header : Str
request_id_header = codes "x-request-id"

-- `claims` are those in the request's extensions.
pub record Request : Type 0 where
  pub method : Str
  pub path : Str
  pub headers : Map Str
  pub claims : Option Claims

pub record Response (B : Type 0) : Type 0 where
  pub status : ℕ
  pub headers : Map Str
  pub body : B

unfoldable pub is_state_changing : Str → Bool
is_state_changing method =
    any (λ m. str_eq m method) (codes "POST" ∷ codes "PUT" ∷ codes "PATCH" ∷ codes "DELETE" ∷ [])

abbrev pub is_success : ℕ → Bool
is_success status = leb 200 status && ltb status 300

-- What the calls of other code give: `to_str` and `from_str` of header values, a new UUID, the
-- milliseconds that the handler took, and the clock after it.
pub record Readings : Type 0 where
  pub to_str : Str → Option Str
  pub from_str : Str → Option Str
  pub new_uuid : Str
  pub elapsed : ℕ
  pub now : ℤ

module _ (env : Readings) where
  unfoldable pub extract_header : Map Str → Str → Option Str
  unfolding Map.get
  extract_header headers name = Map.get name headers >>= env.to_str

  unfoldable pub extract_or_generate_request_id : Map Str → Str
  unfolding extract_header
  extract_or_generate_request_id headers = elim (extract_header headers request_id_header) [
    | none ↦ env.new_uuid
    | some id ↦ id
  ]

  unfoldable pub extract_remote_addr : Map Str → Option Str
  unfolding extract_header
  extract_remote_addr headers = elim (extract_header headers (codes "x-forwarded-for")) [
    | none ↦ extract_header headers (codes "x-real-ip")
    | some addr ↦ some addr
  ]

  -- The entry for a request that was answered with a status.
  unfoldable pub entry_for : Request → ℕ → AuditEntry
  unfolding extract_or_generate_request_id extract_remote_addr extract_header
  entry_for req status = record {
    ts = env.now;
    request_id = extract_or_generate_request_id req.headers;
    method = req.method;
    path = req.path;
    status = status;
    duration_ms = if ltb env.elapsed (2 ^ 64) then env.elapsed else 2 ^ 64 - 1;
    remote_addr = extract_remote_addr req.headers;
    user_agent = extract_header req.headers (codes "user-agent");
    user_id = Option.map (λ c. c.sub) req.claims;
  }

  -- The response with the request's id.
  unfoldable pub stamp : {B : Type 0} → Request → Response B → Response B
  unfolding extract_or_generate_request_id Map.insert
  stamp req resp = elim (env.from_str (extract_or_generate_request_id req.headers)) [
    | none ↦ resp
    | some value ↦ record resp { headers = Map.insert request_id_header value resp.headers }
  ]

  unfoldable pub audit_middleware :
      {Db B : Type 0}
      → Sqlite Db
      → (Request → Db → Db × Response B)
      → Request
      → Db
      → Db × Response B
  unfolding stamp entry_for is_state_changing log
  audit_middleware db next req d =
      let (d', resp) = next req d in
      (
        if is_state_changing req.method || not (is_success resp.status)
            then (log db (entry_for req resp.status) d').0
            else d',
        stamp req resp,
      )
