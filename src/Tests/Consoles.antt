-- ===== src/Tests/Consoles.antt =====
-- src/api/vnc.rs on one cluster.
use moxui.Prelude.{
  ◌+◌, ◌++◌, List, [], ◌∷◌, Str, codes, str_eq, some, if◌then◌else◌, leb, Result, ok, err, ◌≡◌,
  refl,
}
use moxui.Error.{unauthorized}
use moxui.Auth.Jwt.{Claims}
use moxui.Auth.User.{parse_role, can, rank}
use moxui.Auth.Middleware.{require_role}
use moxui.Proxmox.Call
use moxui.Proxmox.Call.{ProxmoxClient}
use moxui.Proxmox.Client
use moxui.Proxmox.Client.Vms.{vnc_proxy}
use moxui.Api.Handler
use moxui.State.{client}
use moxui.Prelude.Decimal.{decimal, digits}
use moxui.Prelude.Map
use moxui.Vnc.Token.{
  TokenCrates, VncError, VncTokenClaims, vnc_token_ttl_secs, vnc_subject, mint_vnc_token,
}
use moxui.Vnc.Console.{
  VncProxyTicket, VncTicketResponse, subject, console_claims, require_console, mint_and_ask,
  or_app_error, on_client, admit, vnc_ticket_handler, vnc_ws_handler,
}
use moxui.Vnc.Console.Sessions.{ReadsBack, admit-vnc_ticket_handler}
use moxui.Vnc.Console.Released.{AllFree, vnc_ws_handler-AllFree}
use moxui.Tests.Toy.{toy_claims}
use moxui.Tests.Clusters.{toy_net, toy_client}

abbrev upstream : VncProxyTicket
upstream = record { ticket = codes "PVEVNC"; port = 5900; upid = codes "UPID" }

abbrev parse : Str → Result VncProxyTicket Str
parse s = ok upstream

abbrev crate_text : VncError → Str
crate_text e = []

abbrev console : VncTokenClaims
console = console_claims (codes "a") (codes "pve") 103 0

abbrev crates : TokenCrates
crates = record {
  to_vec = λ claims. some claims.sub;
  from_slice = λ payload. some console;
  hmac_sha256 = λ key payload. some (key ++ payload);
  encode = λ bytes. bytes;
  decode = λ text. some text;
}

abbrev operator : Claims
operator = record toy_claims { role = codes "operator" }

abbrev clients : List ProxmoxClient
clients = toy_client ∷ []

abbrev ticket : VncTicketResponse
ticket = record { vnc_token = codes "vnc:a:pve:103.kvnc:a:pve:103"; port = 5900; expires_in = 300 }

granted :
    (vnc_ticket_handler toy_net parse crates crate_text
      (some (codes "k"))
      operator
      0
      (codes "a")
      (codes "pve")
      103
      []
      clients).2
    ≡ some (ok ticket)
unfolding vnc_ticket_handler require_console require_role parse_role can rank str_eq on_client
    Handler.◌>>=◌ Handler.lift Handler.replace client mint_and_ask or_app_error mint_vnc_token
    vnc_subject decimal digits vnc_proxy Call.◌>>=◌ Call.send Call.receive Call.decode Call.timeout
    Call.set_ticket Call.record_success Client.current_ticket Client.ensure_ticket
    Client.should_refresh Client.look_at Client.login Client.exposed Client.handle_response
    Client.post_no_default
granted = refl

crates-ReadsBack : ReadsBack toy_net parse crates crate_text (codes "k") console
unfolding vnc_subject decimal digits
crates-ReadsBack = record {
  payload = console.sub;
  tag = codes "k" ++ console.sub;
  written = refl;
  read = refl;
  signed = refl;
  first = refl;
  second = refl;
  plain = refl;
}

admit-vnc_ticket_handler_example :
    (require_console toy_net.status_text operator ≡ ok tt)
    × (admit toy_net parse crates crate_text
          (some (codes "k"))
          299
          (codes "a")
          (codes "pve")
          104
          ticket.vnc_token
        ≡ (if leb (0 + vnc_token_ttl_secs) 299
            then err (unauthorized (codes "vnc token expired"))
            else if str_eq
                (subject (codes "a") (codes "pve") 103)
                (subject (codes "a") (codes "pve") 104)
            then ok tt
            else err (unauthorized (codes "vnc token subject mismatch"))))
admit-vnc_ticket_handler_example =
    admit-vnc_ticket_handler toy_net parse crates crate_text (codes "k") operator 0 299 103 104
      (codes "a") (codes "pve") (codes "a") (codes "pve") [] clients ticket crates-ReadsBack granted

vnc_ws_handler-AllFree_example :
    AllFree
      (vnc_ws_handler toy_net parse crates crate_text
        (some (codes "k"))
        299
        (codes "a")
        (codes "pve")
        103
        ticket.vnc_token
        []
        []
        clients).0
unfolding Map.get
vnc_ws_handler-AllFree_example =
    vnc_ws_handler-AllFree toy_net parse crates crate_text (some (codes "k")) 299 103 (codes "a")
      (codes "pve") ticket.vnc_token [] [] clients (λ key. refl)
