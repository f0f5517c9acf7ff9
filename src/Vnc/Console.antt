-- ===== src/Vnc/Console.antt =====
-- src/api/vnc.rs: the two handlers of console sessions, up to the WebSocket. The handler of the
-- WebSocket ends with the address to which the session is connected.
pub mod Sessions
pub mod Released
use moxui.Prelude.{
  ℕ, zero, suc, ◌+◌, ◌-◌, ◌%◌, ◌^◌, List, [], ◌∷◌, ◌++◌, Str, codes, str_eq, Bool, true, false,
  length, Option, none, some, if◌then◌else◌, unwrap_or, ◌==◌, leb, Result, ok, err,
}
use moxui.Prelude.Results.{ok_or}
use moxui.Prelude.Map
use moxui.Prelude.Map.{Map}
use moxui.Prelude.Text.{starts_with}
use moxui.Prelude.Decimal.{decimal}
use moxui.Error.{AppError, not_found, forbidden, internal, unauthorized, too_many_requests}
use moxui.Auth.Jwt.{Claims}
use moxui.Auth.User
use moxui.Auth.Middleware.{require_role, status}
use moxui.State.{client}
use moxui.Proxmox.Http.{Net}
use moxui.Proxmox.Call
use moxui.Proxmox.Call.{ProxmoxClient, Call}
use moxui.Proxmox.Client.{trim_end}
use moxui.Proxmox.Client.Vms.{vnc_proxy}
use moxui.Api.Handler.{Handler, ◌>>=◌, ◌>>◌, lift, name_of, replace}
use moxui.Vnc.Token.{
  VncTokenClaims, TokenCrates, VncError, not_serialized, bad_key, malformed, mismatch,
  claims_invalid, expired, vnc_token_ttl_secs, vnc_subject, mint_vnc_token, verify_vnc_token,
}
use moxui.Vnc.Limiter.{max_vnc_connections_per_vm}

-- What Proxmox gives for a console.
pub record VncProxyTicket : Type 0 where
  pub ticket : Str
  pub port : ℕ
  pub upid : Str

pub record VncTicketResponse : Type 0 where
  pub vnc_token : Str
  pub port : ℕ
  pub expires_in : ℕ

-- `trim_start_matches` with a text; `skip` bytes are still part of the last occurrence.
unfoldable pub trim_prefix : ℕ → Str → Str → Str
trim_prefix skip p [] = []
trim_prefix (suc skip) p (c ∷ s) = trim_prefix skip p s
trim_prefix zero p (c ∷ s) = elim (starts_with p (c ∷ s)) [
  | true ↦ trim_prefix (length p - 1) p s
  | false ↦ c ∷ s
]

unfoldable pub ws_url : Str → Str → ℕ → VncProxyTicket → Str
unfolding trim_prefix trim_end starts_with
ws_url host_url node vmid upstream =
    let host =
      trim_end (trim_prefix 0 (codes "http://") (trim_prefix 0 (codes "https://") host_url)) in
    (if starts_with (codes "https") host_url then codes "wss" else codes "ws")
    ++ codes "://"
    ++ host
    ++ codes "/api2/json/nodes/"
    ++ node
    ++ codes "/qemu/"
    ++ decimal vmid
    ++ codes "/vncwebsocket?port="
    ++ decimal upstream.port
    ++ codes "&vncticket="
    ++ upstream.ticket

-- `state.client(cluster)`, with the error that these handlers make of its absence.
unfoldable pub on_client : {W A : Type 0} → Str → Call W A → Handler W A
unfolding client replace
on_client cluster m w cs = elim (client name_of cs cluster) [
  | none ↦ (w, cs, some (err (not_found (codes "cluster " ++ cluster))))
  | some c ↦ let (w', c', r) = m none w c in (w', replace cluster c' cs, r)
]

unfoldable pub require_console : (ℕ → Str) → Claims → Result (Unit {0}) AppError
unfolding require_role status
require_console status_text claims = elim (require_role claims User.operator) [
  | ok u ↦ ok u
  | err refusal ↦
      if status refusal == 403
      then err (forbidden (codes "operator role required for vnc"))
      else err (internal (codes "auth middleware returned " ++ status_text (status refusal)))
]

abbrev pub subject : Str → Str → ℕ → Str
subject cluster node vmid = vnc_subject cluster node (decimal vmid)

-- The slots in use for each VM, by the limiter's key.
abbrev pub Slots : Type 0
Slots = Map ℕ

abbrev pub limiter_key : Str → Str → ℕ → Str
limiter_key cluster node vmid = cluster ++ codes ":" ++ node ++ codes ":" ++ decimal vmid

unfoldable pub limiter_of : Str → Slots → Slots
unfolding Map.get Map.insert
limiter_of key slots = elim (Map.get key slots) [ none ↦ Map.insert key 0 slots | some n ↦ slots ]

abbrev pub used_slots : Str → Slots → ℕ
used_slots key slots = unwrap_or (Map.get key slots) 0

-- `try_acquire` and the guard's drop with no other thread in between.
unfoldable pub try_acquire : ℕ → Option ℕ
try_acquire used = if leb max_vnc_connections_per_vm used then none else some ((used + 1) % 2 ^ 32)

unfoldable pub release : ℕ → ℕ
release used = (used + 2 ^ 32 - 1) % 2 ^ 32

-- `crate_text` is the text of an error of `serde_json` or of `hmac`.
unfoldable pub app_error : (VncError → Str) → VncError → AppError
app_error crate_text not_serialized =
    internal (codes "vnc token serialize: " ++ crate_text not_serialized)
app_error crate_text bad_key = internal (codes "vnc token hmac key: " ++ crate_text bad_key)
app_error crate_text malformed = unauthorized (codes "vnc token malformed")
app_error crate_text mismatch = unauthorized (codes "vnc token signature mismatch")
app_error crate_text claims_invalid = unauthorized (codes "vnc token claims invalid")
app_error crate_text expired = unauthorized (codes "vnc token expired")

unfoldable pub or_app_error :
    {A : Type 0} → (VncError → Str) → Result A VncError → Result A AppError
unfolding app_error
or_app_error crate_text (ok a) = ok a
or_app_error crate_text (err e) = err (app_error crate_text e)

abbrev pub console_claims : Str → Str → ℕ → ℕ → VncTokenClaims
console_claims cluster node vmid now = record {
  sub = subject cluster node vmid;
  iat = now;
  exp = now + vnc_token_ttl_secs;
}

module _ {W : Type 0} (net : Net W) (parse : Str → Result VncProxyTicket Str) (crates : TokenCrates)
    (crate_text : VncError → Str) where
  -- The token is signed before Proxmox is asked for the port.
  unfoldable pub mint_and_ask : List ℕ → ℕ → Str → Str → ℕ → Call W VncTicketResponse
  mint_and_ask key now cluster node vmid d w c =
      elim (or_app_error crate_text
        (mint_vnc_token crates key (console_claims cluster node vmid now))) [
          | err e ↦ (w, c, some (err e))
          | ok vnc_token ↦
              let (w', c', r) = vnc_proxy net parse node vmid d w c in
              (
                w',
                c',
                elim r [
                  | none ↦ none
                  | some (err e) ↦ some (err e)
                  | some (ok upstream) ↦ some (
                      ok record {
                        vnc_token = vnc_token;
                        port = upstream.port;
                        expires_in = vnc_token_ttl_secs;
                      })
                ],
              )
        ]

  -- `secret` is the configured key, and `now` the clock.
  unfoldable pub vnc_ticket_handler :
      Option (List ℕ) → Claims → ℕ → Str → Str → ℕ → Handler W VncTicketResponse
  vnc_ticket_handler secret claims now cluster node vmid = do
    lift (require_console net.status_text claims)
    key ← lift (ok_or secret (not_found (codes "vnc console disabled")))
    on_client cluster (mint_and_ask key now cluster node vmid)

  -- The checks of a session's token.
  unfoldable pub admit : Option (List ℕ) → ℕ → Str → Str → ℕ → Str → Result (Unit {0}) AppError
  admit secret now cluster node vmid vnc_token = elim secret [
    | none ↦ err (not_found (codes "vnc console disabled"))
    | some key ↦ elim (or_app_error crate_text (verify_vnc_token crates key vnc_token now)) [
      | err e ↦ err e
      | ok claims ↦
          if str_eq claims.sub (subject cluster node vmid)
          then ok tt
          else err (unauthorized (codes "vnc token subject mismatch"))
    ]
  ]

  unfoldable pub upstream_url : Str → ℕ → Call W Str
  upstream_url node vmid d w c =
      let (w', c', r) = vnc_proxy net parse node vmid d w c in
      (
        w',
        c',
        elim r [
          | none ↦ none
          | some (err e) ↦ some (err e)
          | some (ok upstream) ↦ some (ok (ws_url c'.config.url node vmid upstream))
        ],
      )

  -- The guard of the slot is dropped when the handler returns.
  unfoldable pub vnc_ws_handler :
      Option (List ℕ)
      → ℕ
      → Str
      → Str
      → ℕ
      → Str
      → Slots
      → W
      → List ProxmoxClient
      → Slots × W × List ProxmoxClient × Option (Result Str AppError)
  vnc_ws_handler secret now cluster node vmid vnc_token slots w cs =
      elim (admit secret now cluster node vmid vnc_token) [
        | err e ↦ (slots, w, cs, some (err e))
        | ok u ↦
            let (w', cs', r) = on_client cluster (upstream_url node vmid) w cs in
            let key = limiter_key cluster node vmid in
            let slots' = limiter_of key slots in
            elim r [
              | none ↦ (slots, w', cs', none)
              | some (err e) ↦ (slots, w', cs', some (err e))
              | some (ok url) ↦ elim (try_acquire (used_slots key slots')) [
                | none ↦ (
                  slots',
                  w',
                  cs',
                  some (
                      err
                        (too_many_requests (codes "too many concurrent VNC sessions for this VM"))),
                )
                | some used ↦ (Map.insert key (release used) slots', w', cs', some (ok url))
              ]
            ]
      ]
