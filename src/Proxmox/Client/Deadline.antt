-- ===== src/Proxmox/Client/Deadline.antt =====
-- src/proxmox/client.rs: the writes to a cluster that does not answer in time.
use moxui.Prelude.{
  ℕ, ◌+◌, ◌*◌, ◌^◌, List, [], ◌++◌, Str, codes, Option, none, some, Result, ok, err, ◌≡◌, refl, ap,
  ◌∙◌,
}
use moxui.Error.{AppError}
use moxui.Proxmox.Http
use moxui.Proxmox.Http.{
  Method, Body, HttpRequest, HttpResponse, Ticket, Net, empty, json, multipart, put,
}
use moxui.Proxmox.Call.{ProxmoxClient, Call, ◌>>=◌, send, timeout, timed_out}
use moxui.Proxmox.Call.Sends.{bind-ok, bind-err}
use moxui.Proxmox.Client.Storages.{upload_file}
use moxui.Proxmox.Client.{
  self, write_request, current_ticket, post_no_default, put_with_query, put_json, handle_response,
  post, post_with_query, post_timeout_secs,
}

-- The deadline of every request passes before its response.
abbrev pub Hung : {W : Type 0} → Net W → Type 0
Hung {W = W} net = (t : ℕ) (req : HttpRequest) (w : W) → (net.send_until t req w).1 ≡ none

module _ {W : Type 0} (net : Net W) (hung : Hung net) where
  timeout-send :
      (secs : ℕ) (what : Str) (req : HttpRequest) (d : Option ℕ) (w : W) (c : ProxmoxClient)
      → ((timeout net secs what (send net req) d w c).1 ≡ c)
        × ((timeout net secs what (send net req) d w c).2 ≡ some (err (timed_out what secs)))
  unfolding timeout send
  timeout-send secs what req d w c =
      let (w', now) = net.instant w in
      let e = hung (now + secs * 10 ^ 9) req w' in rw e (refl, refl)

  module _ {T : Type 0} (parse : Str → Result T Str) where
    -- The call ends with the error of a timeout, and leaves the client that the login gave.
    abbrev pub TimesOut : Call W T → Str → Option ℕ → W → ProxmoxClient → ProxmoxClient → Type 0
    TimesOut m what d w c c' =
        ((m d w c).1 ≡ c') × ((m d w c).2 ≡ some (err (timed_out what post_timeout_secs)))

    request-TimesOut :
        (request : ProxmoxClient → Ticket → HttpRequest) (what : Str) (d : Option ℕ) (w w' : W)
        (c c' : ProxmoxClient) (t : Ticket)
        → current_ticket net d w c ≡ (w', c', some (ok t))
        → TimesOut
            (current_ticket net >>= λ t. self net >>= λ c.
              timeout net post_timeout_secs what (send net (request c t))
              >>= handle_response net parse)
            what
            d
            w
            c
            c'
    unfolding ◌>>=◌
    request-TimesOut request what d w w' c c' t q =
        let answered = timeout net post_timeout_secs what (send net (request c' t)) in
        let (kept, late) = timeout-send post_timeout_secs what (request c' t) d w' c' in
        let run =
          bind-ok (current_ticket net)
            (λ t. self net >>= λ c.
              timeout net post_timeout_secs what (send net (request c t))
              >>= handle_response net parse)
            d w c t (ap (λ x. x.2) q)
          ∙ ap
              (λ (x : W × ProxmoxClient × Option (Result Ticket AppError)).
                (timeout net post_timeout_secs what (send net (request x.1 t))
                    >>= handle_response net parse)
                  d x.0 x.1)
              q
          ∙ bind-err answered (handle_response net parse) d w' c' (timed_out what post_timeout_secs)
              late in
        (ap (λ x. x.1) run ∙ kept, ap (λ x. x.2) run)

    -- Where the cluster takes the connection and no response comes in time, each operation that
    -- writes through a deadline of its own ends with the error of that deadline, also where there is
    -- none around it, once it has a ticket; the client stays as it was after the ticket was got, so
    -- that its circuit breaker is told of no failure.
    pub Writes-TimesOut :
        (path value node storage content filename : Str) (params : List (Str × Str))
        (bytes : List ℕ) (d : Option ℕ) (w w' : W) (c c' : ProxmoxClient) (t : Ticket)
        → current_ticket net d w c ≡ (w', c', some (ok t))
        → TimesOut (post net parse path) (codes "POST " ++ path) d w c c'
          × TimesOut (post_with_query net parse path params) (codes "POST " ++ path) d w c c'
          × TimesOut (post_no_default net parse path params) (codes "POST " ++ path) d w c c'
          × TimesOut (put_with_query net parse path params) (codes "PUT " ++ path) d w c c'
          × TimesOut (put_json net parse path value) (codes "PUT " ++ path) d w c c'
          × TimesOut
              (upload_file net parse node storage content filename bytes)
              (codes "upload_file nodes/"
                ++ node
                ++ codes "/storage/"
                ++ storage
                ++ codes "/upload")
              d
              w
              c
              c'
    unfolding post post_with_query post_no_default put_with_query put_json upload_file
    Writes-TimesOut path value node storage content filename params bytes d w w' c c' t q =
        let upload = codes "nodes/" ++ node ++ codes "/storage/" ++ storage ++ codes "/upload" in
        (
          request-TimesOut (λ c. write_request Http.post c path [] empty) (codes "POST " ++ path) d
              w w' c c' t q,
          request-TimesOut (λ c. write_request Http.post c path params empty)
              (codes "POST " ++ path) d w w' c c' t q,
          request-TimesOut (λ c. write_request Http.post c path params empty)
              (codes "POST " ++ path) d w w' c c' t q,
          request-TimesOut (λ c. write_request put c path params empty) (codes "PUT " ++ path) d w
              w' c c' t q,
          request-TimesOut (λ c. write_request put c path [] (json value)) (codes "PUT " ++ path) d
              w w' c c' t q,
          request-TimesOut
              (λ c. write_request Http.post c upload [] (multipart filename bytes content))
              (codes "upload_file " ++ upload) d w w' c c' t q,
        )
