-- ===== src/Vnc/Console/Sessions.antt =====
-- src/api/vnc.rs: which sessions are opened, and with which tokens.
use moxui.Prelude.{
  ℕ, ◌+◌, List, Str, str_eq, str_eq_iff, Bool-cases, true, not, all, ◌==◌, leb, Option,
  Option-cases, none, some, if◌then◌else◌, Result, ok, err, ◌≡◌, refl, arith, inl, inr, codes,
}
use moxui.Prelude.Results.{Result-cases, reply-cases}
use moxui.Error.{unauthorized}
use moxui.Auth.Jwt.{Claims}
use moxui.Proxmox.Http.{Net}
use moxui.Proxmox.Call.{ProxmoxClient}
use moxui.State.{client}
use moxui.Proxmox.Client.Vms.{vnc_proxy}
use moxui.Api.Handler.{name_of, lift, ◌>>=◌}
use moxui.Vnc.Token.{
  VncTokenClaims, TokenCrates, VncError, expired, vnc_token_ttl_secs, mint_vnc_token,
  verify_vnc_token,
}
use moxui.Vnc.Token.Laws.{verify_vnc_token_minted}
use moxui.Vnc.Console.{
  VncProxyTicket, VncTicketResponse, Slots, subject, limiter_key, limiter_of, used_slots,
  try_acquire, require_console, mint_and_ask, vnc_ticket_handler, console_claims, app_error,
  or_app_error, on_client, admit, upstream_url, vnc_ws_handler,
}

module _ {W : Type 0} (net : Net W) (parse : Str → Result VncProxyTicket Str) (crates : TokenCrates)
    (crate_text : VncError → Str) where
  admit-passed :
      (secret : Option (List ℕ)) (now vmid : ℕ) (cluster node token : Str) (u : Unit {0})
      → admit net parse crates crate_text secret now cluster node vmid token ≡ ok u
      → (key : List ℕ) × (claims : VncTokenClaims) × (secret ≡ some key)
        × (verify_vnc_token crates key token now ≡ ok claims)
        × (claims.sub ≡ subject cluster node vmid)
  unfolding admit or_app_error
  admit-passed none now vmid cluster node token u h = cc
  admit-passed (some key) now vmid cluster node token u h =
      elim (Result-cases (verify_vnc_token crates key token now)) [
        | inr (e, refused) ↦ let g = rw (admit, refused) at h in ground (arith, g)
        | inl (claims, accepted) ↦
            let g = rw (admit, accepted) at h in
            (
              key,
              claims,
              refl,
              accepted,
              ground (arith, g, str_eq_iff claims.sub (subject cluster node vmid)),
            )
      ]

  connected :
      (secret : Option (List ℕ)) (now vmid : ℕ) (cluster node token : Str) (slots : Slots) (w : W)
      (cs : List ProxmoxClient) (url : Str) (u : Unit {0})
      → admit net parse crates crate_text secret now cluster node vmid token ≡ ok u
      → (vnc_ws_handler net parse crates crate_text secret now cluster node vmid token slots w cs).3
        ≡ some (ok url)
      → (on_client cluster (upstream_url net parse crates crate_text node vmid) w cs).2
        ≡ some (ok url)
  unfolding vnc_ws_handler
  connected secret now vmid cluster node token slots w cs url u passed h =
      elim (reply-cases
        (on_client cluster (upstream_url net parse crates crate_text node vmid) w cs).2) [
          | inl given_up ↦ let g = rw (vnc_ws_handler, passed, given_up) at h in ground (arith, g)
          | inr (inr (e, failed)) ↦
              let g = rw (vnc_ws_handler, passed, failed) at h in ground (arith, g)
          | inr (inl (found, answered)) ↦
              let g = rw (vnc_ws_handler, passed, answered) at h in
              let key = limiter_key cluster node vmid in
              elim (Option-cases (try_acquire (used_slots key (limiter_of key slots)))) [
                | inl full ↦ let k = rw full at g in ground (arith, k)
                | inr (n, open_slot) ↦ let k = rw open_slot at g in ground (arith, k, answered)
              ]
        ]

  -- A session is opened only where consoles are configured, with a token that the key accepts at the
  -- time and that names this cluster, node and VM, and at the address that Proxmox answered for.
  pub vnc_ws_handler_connected :
      (secret : Option (List ℕ)) (now vmid : ℕ) (cluster node token : Str) (slots : Slots) (w : W)
      (cs : List ProxmoxClient) (url : Str)
      → (vnc_ws_handler net parse crates crate_text secret now cluster node vmid token slots w cs).3
        ≡ some (ok url)
      → (key : List ℕ) × (claims : VncTokenClaims) × (secret ≡ some key)
        × (verify_vnc_token crates key token now ≡ ok claims)
        × (claims.sub ≡ subject cluster node vmid)
        × ((on_client cluster (upstream_url net parse crates crate_text node vmid) w cs).2
            ≡ some (ok url))
  unfolding vnc_ws_handler
  vnc_ws_handler_connected secret now vmid cluster node token slots w cs url h =
      elim (Result-cases (admit net parse crates crate_text secret now cluster node vmid token)) [
        | inr (e, refused) ↦ let g = rw (vnc_ws_handler, refused) at h in ground (arith, g)
        | inl (u, passed) ↦
            let (key, claims, configured, accepted, same) =
              admit-passed secret now vmid cluster node token u passed in
            (
              key,
              claims,
              configured,
              accepted,
              same,
              connected secret now vmid cluster node token slots w cs url u passed h,
            )
      ]

  -- What the crates give for the claims of a token: the claims and the base64 of both parts are read
  -- back, and the base64 of the claims holds no dot.
  pub record ReadsBack (key : List ℕ) (claims : VncTokenClaims) : Type 0 where
    pub payload : List ℕ
    pub tag : List ℕ
    pub written : crates.to_vec claims ≡ some payload
    pub read : crates.from_slice payload ≡ some claims
    pub signed : crates.hmac_sha256 key payload ≡ some tag
    pub first : crates.decode (crates.encode payload) ≡ some payload
    pub second : crates.decode (crates.encode tag) ≡ some tag
    pub plain : all (λ c. not (c == 46)) (crates.encode payload) ≡ true

  minted-verified :
      (key : List ℕ) (claims : VncTokenClaims) (token : Str) (now : ℕ)
      → ReadsBack key claims
      → mint_vnc_token crates key claims ≡ ok token
      → verify_vnc_token crates key token now
        ≡ (if leb claims.exp now then err expired else ok claims)
  minted-verified key claims token now back minted =
      verify_vnc_token_minted crates key claims back.payload back.tag token now minted back.written
        back.read back.signed back.first back.second back.plain

  admit-minted :
      (key : List ℕ) (at_mint now vmid vmid' : ℕ) (cluster node cluster' node' token : Str)
      → ReadsBack key (console_claims cluster node vmid at_mint)
      → mint_vnc_token crates key (console_claims cluster node vmid at_mint) ≡ ok token
      → admit net parse crates crate_text (some key) now cluster' node' vmid' token ≡ (
          if leb (at_mint + vnc_token_ttl_secs) now
          then err (unauthorized (codes "vnc token expired"))
          else if str_eq (subject cluster node vmid) (subject cluster' node' vmid')
          then ok tt
          else err (unauthorized (codes "vnc token subject mismatch")))
  unfolding admit or_app_error app_error
  admit-minted key at_mint now vmid vmid' cluster node cluster' node' token back minted =
      let e =
        minted-verified key (console_claims cluster node vmid at_mint) token now back minted in
      elim (Bool-cases (leb (at_mint + vnc_token_ttl_secs) now)) [
        | inl late ↦ rw (admit, e, late) refl
        | inr early ↦ rw (admit, e, early) refl
      ]

  asked-minted :
      (key : List ℕ) (now vmid : ℕ) (cluster node : Str) (w : W) (c : ProxmoxClient)
      (r : VncTicketResponse)
      → (mint_and_ask net parse crates crate_text key now cluster node vmid none w c).2
        ≡ some (ok r)
      → mint_vnc_token crates key (console_claims cluster node vmid now) ≡ ok r.vnc_token
  unfolding mint_and_ask or_app_error
  asked-minted key now vmid cluster node w c r h =
      elim (Result-cases (mint_vnc_token crates key (console_claims cluster node vmid now))) [
        | inr (e, failed) ↦ let g = rw (mint_and_ask, failed) at h in ground (arith, g)
        | inl (token, minted) ↦ elim (reply-cases (vnc_proxy net parse node vmid none w c).2) [
          | inl given_up ↦ let g = rw (mint_and_ask, minted, given_up) at h in ground (arith, g)
          | inr (inr (e, failed)) ↦
              let g = rw (mint_and_ask, minted, failed) at h in ground (arith, g)
          | inr (inl (upstream, answered)) ↦
              let g = rw (mint_and_ask, minted, answered) at h in ground (arith, g, minted)
        ]
      ]

  ticket-minted :
      (key : List ℕ) (claims : Claims) (now vmid : ℕ) (cluster node : Str) (w : W)
      (cs : List ProxmoxClient) (r : VncTicketResponse)
      → (vnc_ticket_handler net parse crates crate_text
          (some key)
          claims
          now
          cluster
          node
          vmid
          w
          cs).2
        ≡ some (ok r)
      → (require_console net.status_text claims ≡ ok tt)
        × (mint_vnc_token crates key (console_claims cluster node vmid now) ≡ ok r.vnc_token)
  unfolding vnc_ticket_handler on_client ◌>>=◌ lift
  ticket-minted key claims now vmid cluster node w cs r h =
      elim (Result-cases (require_console net.status_text claims)) [
        | inr (e, refused) ↦ let g = rw (vnc_ticket_handler, refused) at h in ground (arith, g)
        | inl (u, passed) ↦ elim (Option-cases (client name_of cs cluster)) [
          | inl unknown ↦
              let g = rw (vnc_ticket_handler, passed, on_client, unknown) at h in ground (arith, g)
          | inr (c, known) ↦
              let g = rw (vnc_ticket_handler, passed, on_client, known) at h in
              (passed, asked-minted key now vmid cluster node w c r g)
        ]
      ]

  -- The ticket handler answers only operators, and its token passes the checks of a session exactly
  -- for the cluster, node and VM that it was asked for, up to five minutes later: it is refused as
  -- expired from then on, and before as one of another VM. Two VMs count as one where their subjects
  -- are the same text. The crates read back what they write.
  pub admit-vnc_ticket_handler :
      (key : List ℕ) (claims : Claims) (issued now vmid vmid' : ℕ)
      (cluster node cluster' node' : Str) (w : W) (cs : List ProxmoxClient) (r : VncTicketResponse)
      → ReadsBack key (console_claims cluster node vmid issued)
      → (vnc_ticket_handler net parse crates crate_text
          (some key)
          claims
          issued
          cluster
          node
          vmid
          w
          cs).2
        ≡ some (ok r)
      → (require_console net.status_text claims ≡ ok tt)
        × (admit net parse crates crate_text (some key) now cluster' node' vmid' r.vnc_token ≡ (
            if leb (issued + vnc_token_ttl_secs) now
            then err (unauthorized (codes "vnc token expired"))
            else if str_eq (subject cluster node vmid) (subject cluster' node' vmid')
            then ok tt
            else err (unauthorized (codes "vnc token subject mismatch"))))
  admit-vnc_ticket_handler key claims issued now vmid vmid' cluster node cluster' node' w cs r back
        h =
      let (allowed, minted) = ticket-minted key claims issued vmid cluster node w cs r h in
      (
        allowed,
        admit-minted key issued now vmid vmid' cluster node cluster' node' r.vnc_token back minted,
      )
