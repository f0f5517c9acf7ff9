-- ===== src/Proxmox/Client.antt =====
-- src/proxmox/client.rs: the requests that a cluster's client makes. `parse` stands for the decoder
-- of the type that the code asks for, which serde derives.
pub mod Steady
pub mod Tickets
pub mod Requests
pub mod Breaker
pub mod Backups
pub mod Unreachable
pub mod Deadline
pub mod Twins
pub mod Vms
pub mod Snapshots
pub mod Containers
pub mod Storages
pub mod HaGroups
pub mod Replication
pub mod Cluster
use moxui.Prelude.{
  ℕ, List, [], ◌∷◌, ◌++◌, Str, codes, str_eq, Bool, true, false, ◌&&◌, Option, none, some,
  if◌then◌else◌, ◌==◌, leb, Result, ok, err,
}
use moxui.Prelude.Int.{ℤ, pos, ltb_ℤ, sub_i64}
use moxui.Error.{AppError, proxmox, internal}
use moxui.Proxmox.Http
use moxui.Proxmox.Http.{
  Method, Body, HttpRequest, HttpResponse, Ticket, Net, empty, credentials, json, put, delete,
}
use moxui.Proxmox.Call.{
  ProxmoxClient, Call, done, fail, ◌>>=◌, ◌>>◌, send, decode, timeout, record_failure,
  record_success, set_ticket,
}

abbrev pub ping_timeout_secs : ℕ
ping_timeout_secs = 3

abbrev pub list_vms_timeout_secs : ℕ
list_vms_timeout_secs = 10

abbrev pub post_timeout_secs : ℕ
post_timeout_secs = 10

-- `str::trim_start_matches('/')` and `str::trim_end_matches('/')`.
unfoldable pub trim_start : Str → Str
trim_start [] = []
trim_start (b ∷ s) = let rest = trim_start s in if b == 47 then rest else b ∷ s

unfoldable pub trim_end : Str → Str
trim_end [] = []
trim_end (b ∷ s) = let rest = trim_end s in if b == 47 && str_eq rest [] then [] else b ∷ rest

unfoldable pub build_url : ProxmoxClient → Str → Str
unfolding trim_start trim_end
build_url c path = trim_end c.config.url ++ codes "/api2/json/" ++ trim_start path

abbrev pub cookie : Ticket → Str × Str
cookie t = (codes "Cookie", codes "PVEAuthCookie=" ++ t.ticket)

abbrev pub csrf : Ticket → Str × Str
csrf t = (codes "CSRFPreventionToken", t.csrf_token)

-- The request of a login, of a read, and of a write.
unfoldable pub login_request : ProxmoxClient → HttpRequest
login_request c = record {
  method = Http.post;
  url = c.config.url ++ codes "/api2/json/access/ticket";
  query = [];
  headers = [];
  body = credentials c.config.username c.config.password;
}

unfoldable pub read_request : ProxmoxClient → Str → Ticket → HttpRequest
unfolding build_url
read_request c path t = record {
  method = Http.get;
  url = build_url c path;
  query = [];
  headers = cookie t ∷ [];
  body = empty;
}

unfoldable pub write_request :
    Method → ProxmoxClient → Str → List (Str × Str) → Body → Ticket → HttpRequest
unfolding build_url
write_request method c path params body t = record {
  method = method;
  url = build_url c path;
  query = params;
  headers = cookie t ∷ csrf t ∷ [];
  body = body;
}

-- A ticket that expires within five minutes is due for a new login.
unfoldable pub is_due : Ticket → ℤ → Bool
unfolding sub_i64
is_due t now = ltb_ℤ (sub_i64 t.expires_at now) (pos 300)

module _ {W : Type 0} (net : Net W) where
  -- The client itself, `self`.
  abbrev pub self : Call W ProxmoxClient
  self d w c = (w, c, some (ok c))

  unfoldable pub login : Call W (Unit {0})
  login = do
    c ← self
    resp ← send net (login_request c)
    if net.is_success resp.status
        then (do t ← decode net net.parse_ticket resp; set_ticket t; record_success)
        else (do
          record_failure net
          fail (proxmox (codes "Login failed with status " ++ net.status_text resp.status)))

  -- The clock is read only where there is a ticket.
  unfoldable pub look_at : Option Ticket → W → W × Bool
  look_at none w = (w, true)
  look_at (some t) w = let (w', now) = net.utc_now w in (w', is_due t now)

  unfoldable pub should_refresh : Call W Bool
  should_refresh d w c = let (w', due) = look_at c.ticket w in (w', c, some (ok due))

  unfoldable pub ensure_ticket : Call W (Unit {0})
  ensure_ticket = do due ← should_refresh; if due then login else done tt

  unfoldable pub exposed : Option Ticket → Call W Ticket
  exposed none = fail (internal (codes "ticket missing after ensure"))
  exposed (some t) = done t

  unfoldable pub current_ticket : Call W Ticket
  current_ticket = do ensure_ticket; c ← self; exposed c.ticket

  module _ {T : Type 0} (parse : Str → Result T Str) where
    unfoldable pub handle_response : HttpResponse → Call W T
    handle_response resp =
        if net.is_success resp.status
        then (do value ← decode net parse resp; record_success; done value)
        else (do
          record_failure net
          fail (proxmox (codes "GET failed with status " ++ net.status_text resp.status)))

    unfoldable pub get : Str → Call W T
    get path = do
      t ← current_ticket
      c ← self
      resp ← send net (read_request c path t)
      handle_response resp

    unfoldable pub post : Str → Call W T
    post path = do
      t ← current_ticket
      c ← self
      resp ←
          timeout net post_timeout_secs (codes "POST " ++ path)
            (send net (write_request Http.post c path [] empty t))
      handle_response resp

    unfoldable pub post_with_query : Str → List (Str × Str) → Call W T
    post_with_query path params = do
      t ← current_ticket
      c ← self
      resp ←
          timeout net post_timeout_secs (codes "POST " ++ path)
            (send net (write_request Http.post c path params empty t))
      handle_response resp

    unfoldable pub post_no_default : Str → List (Str × Str) → Call W T
    post_no_default path params = do
      t ← current_ticket
      c ← self
      resp ←
          timeout net post_timeout_secs (codes "POST " ++ path)
            (send net (write_request Http.post c path params empty t))
      handle_response resp

    unfoldable pub put_with_query : Str → List (Str × Str) → Call W T
    put_with_query path params = do
      t ← current_ticket
      c ← self
      resp ←
          timeout net post_timeout_secs (codes "PUT " ++ path)
            (send net (write_request put c path params empty t))
      handle_response resp

    unfoldable pub put_json : Str → Str → Call W T
    put_json path value = do
      t ← current_ticket
      c ← self
      resp ←
          timeout net post_timeout_secs (codes "PUT " ++ path)
            (send net (write_request put c path [] (json value) t))
      handle_response resp

    unfoldable pub delete_json : Str → Call W T
    delete_json path = do
      t ← current_ticket
      c ← self
      resp ← send net (write_request delete c path [] empty t)
      handle_response resp
