-- ===== src/Vnc/Console/Released.antt =====
-- src/api/vnc.rs: the slots are all free again when the handler returns.
use moxui.Prelude.{
  ℕ, List, Str, Option, some, Result, ok, ◌≡◌, refl, ap, arith, inl, inr, Option-cases,
}
use moxui.Prelude.Results.{Result-cases, reply-cases}
use moxui.Prelude.Map
use moxui.Prelude.Map.{Map, get-insert}
use moxui.Error.{AppError}
use moxui.Proxmox.Http.{Net}
use moxui.Proxmox.Call.{ProxmoxClient}
use moxui.Vnc.Token.{TokenCrates, VncError}
use moxui.Vnc.Console.{
  VncProxyTicket, Slots, limiter_key, limiter_of, used_slots, try_acquire, release, on_client,
  admit, upstream_url, vnc_ws_handler,
}

-- No VM has a slot in use.
abbrev pub AllFree : Slots → Type 0
AllFree slots = (key : Str) → used_slots key slots ≡ 0

insert-AllFree : (key : Str) (slots : Slots) → AllFree slots → AllFree (Map.insert key 0 slots)
insert-AllFree key slots free other = ground (arith, get-insert key other 0 slots, free other)

limiter_of-AllFree : (key : Str) (slots : Slots) → AllFree slots → AllFree (limiter_of key slots)
unfolding limiter_of Map.get
limiter_of-AllFree key slots free = elim (Option-cases (Map.get key slots)) [
  | inl new ↦ rw (limiter_of, new) (insert-AllFree key slots free)
  | inr (n, known) ↦ rw (limiter_of, known) free
]

taken : (used : ℕ) → used ≡ 0 → try_acquire used ≡ some 1
unfolding try_acquire
taken used e = ground arith

module _ {W : Type 0} (net : Net W) (parse : Str → Result VncProxyTicket Str) (crates : TokenCrates)
    (crate_text : VncError → Str) where
  module _ (secret : Option (List ℕ)) (now vmid : ℕ) (cluster node token : Str) (slots : Slots)
      (w : W) (cs : List ProxmoxClient) where
    -- What the checks, and then Proxmox, answer.
    abbrev pub admitted : Result (Unit {0}) AppError
    admitted = admit net parse crates crate_text secret now cluster node vmid token

    abbrev pub asked : W × List ProxmoxClient × Option (Result Str AppError)
    asked = on_client cluster (upstream_url net parse crates crate_text node vmid) w cs

    abbrev handled : Slots × W × List ProxmoxClient × Option (Result Str AppError)
    handled =
        vnc_ws_handler net parse crates crate_text secret now cluster node vmid token slots w cs

    module _ (free : AllFree slots) where
      open_slot :
          try_acquire (
            used_slots
              (limiter_key cluster node vmid)
              (limiter_of (limiter_key cluster node vmid) slots))
          ≡ some 1
      open_slot =
          taken
            (used_slots (limiter_key cluster node vmid)
              (limiter_of (limiter_key cluster node vmid) slots))
            (limiter_of-AllFree (limiter_key cluster node vmid) slots free
              (limiter_key cluster node vmid))

      connected :
          (url : Str)
          → admitted ≡ ok tt
          → asked.2 ≡ some (ok url)
          → handled ≡ (
            Map.insert
                (limiter_key cluster node vmid)
                0
                (limiter_of (limiter_key cluster node vmid) slots),
            asked.0,
            asked.1,
            some (ok url),
          )
      unfolding vnc_ws_handler Map.insert on_client release
      connected url e f = rw (vnc_ws_handler, e, f, open_slot, release) refl

      -- A session whose checks pass and for which Proxmox answers is never turned away.
      pub vnc_ws_handler_never_full :
          (url : Str) → admitted ≡ ok tt → asked.2 ≡ some (ok url) → handled.3 ≡ some (ok url)
      vnc_ws_handler_never_full url e f = ap (λ r. r.3) (connected url e f)

      -- Where no slot is in use, none is in use when the handler of the WebSocket has answered,
      -- whatever it answers: the cap counts no session.
      pub vnc_ws_handler-AllFree : AllFree handled.0
      unfolding vnc_ws_handler Map.get
      vnc_ws_handler-AllFree = elim (Result-cases admitted) [
        | inr (e, refused) ↦ rw (vnc_ws_handler, refused) free
        | inl (u, passed) ↦ elim (reply-cases asked.2) [
          | inl given_up ↦ rw (vnc_ws_handler, passed, given_up) free
          | inr (inr (e, failed)) ↦ rw (vnc_ws_handler, passed, failed) free
          | inr (inl (url, answered)) ↦ rw (connected url passed answered) (
              insert-AllFree (limiter_key cluster node vmid)
                (limiter_of (limiter_key cluster node vmid) slots)
                (limiter_of-AllFree (limiter_key cluster node vmid) slots free))
        ]
      ]
