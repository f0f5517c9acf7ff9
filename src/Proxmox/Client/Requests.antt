-- ===== src/Proxmox/Client/Requests.antt =====
-- src/proxmox/client.rs: which requests a read or a write sends.
use moxui.Prelude.{
  ℕ, List, [], ◌∷◌, ◌++◌, Str, codes, Option, none, some, Result, ok, err, ◌≡◌, refl, ap, ◌∙◌, ◌⊎◌,
  inl, inr,
}
use moxui.Error.{AppError}
use moxui.Proxmox.Http
use moxui.Proxmox.Http.{
  Method, Body, HttpRequest, HttpResponse, Ticket, Net, empty, json, multipart, put, delete,
}
use moxui.Proxmox.Call.{ProxmoxClient, Call, ◌>>=◌, send, timeout}
use moxui.Proxmox.Call.Sends.{
  Records, Same, Once, bind-ok, bind-none, bind-err, bind-Same, send-Same, timeout-Same, bind-Once,
  send-Once, timeout-Once,
}
use moxui.Proxmox.Client.Tickets.{
  stored, renewed, refused, ticketed, handle_response-Same, handle_response-Quiet,
}
use moxui.Proxmox.Client.Storages.{upload_file}
use moxui.Proxmox.Client.{
  self, login_request, read_request, write_request, current_ticket, build_url, post_no_default,
  put_with_query, put_json, delete_json, handle_response, get, post, post_with_query,
  post_timeout_secs,
}

-- The requests of one exchange, between the client `c` before it and `stored`, the ticket after it.
pub data Exchange (c : ProxmoxClient) (request : Ticket → HttpRequest) (stored : Option Ticket)
    : List HttpRequest → Type 0 where
  login_failed : Exchange c request stored (login_request c ∷ [])
  with_stored :
      (t : Ticket)
      → c.ticket ≡ some t
      → stored ≡ some t
      → Exchange c request stored (request t ∷ [])
  with_new :
      (t : Ticket) → stored ≡ some t → Exchange c request stored (login_request c ∷ request t ∷ [])

append_twice :
    (xs : List HttpRequest) (a b : HttpRequest) → (xs ++ (a ∷ [])) ++ (b ∷ []) ≡ xs ++ (a ∷ b ∷ [])
append_twice [] a b = refl
append_twice (x ∷ xs) a b = ap (◌∷◌ x) (append_twice xs a b)

module _ {W : Type 0} (net : Net W) (log : W → List HttpRequest) (rec : Records net log) where
  module _ {T : Type 0} (request : ProxmoxClient → Ticket → HttpRequest)
      (act : ProxmoxClient → Ticket → Call W T)
      (sends : (c : ProxmoxClient) (t : Ticket) → Once log (request c t) (act c t))
      (same : (c : ProxmoxClient) (t : Ticket) → Same (act c t))
      (config : (c c' : ProxmoxClient) (t : Ticket)
        → c'.config ≡ c.config
        → request c' t ≡ request c t) where
    pub with_ticket : Call W T
    with_ticket = current_ticket net >>= λ t. self net >>= λ c. act c t

    with_ticket-ok :
        (d : Option ℕ) (w w' : W) (c c' : ProxmoxClient) (t : Ticket)
        → current_ticket net d w c ≡ (w', c', some (ok t))
        → with_ticket d w c ≡ act c' t d w' c'
    unfolding with_ticket ◌>>=◌
    with_ticket-ok d w w' c c' t q =
        bind-ok (current_ticket net) (λ t. self net >>= λ c. act c t) d w c t (ap (λ x. x.2) q)
        ∙ ap (λ (x : W × ProxmoxClient × Option (Result Ticket AppError)). act x.1 t d x.0 x.1) q

    with_ticket-refused :
        (d : Option ℕ) (w w' : W) (c c' : ProxmoxClient)
        → (current_ticket net d w c ≡ (w', c', none))
          ⊎ ((e : AppError) × (current_ticket net d w c ≡ (w', c', some (err e))))
        → ((with_ticket d w c).0 ≡ w') × ((with_ticket d w c).1 ≡ c')
    unfolding with_ticket
    with_ticket-refused d w w' c c' (inl q) =
        let p = bind-none (current_ticket net) _ d w c (ap (λ x. x.2) q) in
        (ap (λ x. x.0) p ∙ ap (λ x. x.0) q, ap (λ x. x.1) p ∙ ap (λ x. x.1) q)
    with_ticket-refused d w w' c c' (inr (e, q)) =
        let p = bind-err (current_ticket net) _ d w c e (ap (λ x. x.2) q) in
        (ap (λ x. x.0) p ∙ ap (λ x. x.0) q, ap (λ x. x.1) p ∙ ap (λ x. x.1) q)

    pub exchange :
        (d : Option ℕ) (w : W) (c : ProxmoxClient)
        → (reqs : List HttpRequest) × (log (with_ticket d w c).0 ≡ log w ++ reqs)
          × Exchange c (request c) (with_ticket d w c).1.ticket reqs
    exchange d w c = elim (ticketed net log rec d w c) [
      | stored t w' l e q ↦
          let p = with_ticket-ok d w w' c c t q in
          (
            request c t ∷ [],
            ap (λ x. log x.0) p ∙ ((sends c t).once d w' c ∙ ap (λ x. x ++ (request c t ∷ [])) l),
            with_stored t e (ap (λ x. x.1.ticket) p ∙ ((same c t).same d w' c ∙ e)),
          )
      | renewed t w' c' l e k q ↦
          let p = with_ticket-ok d w w' c c' t q in
          (
            login_request c ∷ request c t ∷ [],
            ap (λ x. log x.0) p
                ∙ ((sends c' t).once d w' c'
                    ∙ (ap (λ r. log w' ++ (r ∷ [])) (config c c' t k)
                        ∙ (ap (λ x. x ++ (request c t ∷ [])) l
                            ∙ append_twice (log w) (login_request c) (request c t)))),
            with_new t (ap (λ x. x.1.ticket) p ∙ ((same c' t).same d w' c' ∙ e)),
          )
      | refused w' c' l r ↦
          let (p, q) = with_ticket-refused d w w' c c' r in
          (login_request c ∷ [], ap log p ∙ l, login_failed)
    ]

  module _ {T : Type 0} (parse : Str → Result T Str) where
    -- Whatever the deadline, the network and the cluster do, a read sends one login, or one request,
    -- or both in this order, and nothing else: without a login the request carries the ticket that
    -- the client had, and after one the ticket that is stored then. The world records its requests.
    pub get-Exchange :
        (path : Str) (d : Option ℕ) (w : W) (c : ProxmoxClient)
        → (reqs : List HttpRequest) × (log (get net parse path d w c).0 ≡ log w ++ reqs)
          × Exchange c (read_request c path) (get net parse path d w c).1.ticket reqs
    unfolding get with_ticket read_request build_url
    get-Exchange path =
        exchange (λ c. read_request c path)
          (λ c t. send net (read_request c path t) >>= handle_response net parse)
          (λ c t.
            bind-Once log _ _ _ (send-Once net log rec (read_request c path t))
              (handle_response-Quiet net log rec parse))
          (λ c t. bind-Same _ _ (send-Same net _) (handle_response-Same net parse))
          (λ c c' t e. ap (λ k. read_request (record c { config = k }) path t) e)

    -- The same of one operation that writes.
    abbrev pub Writes :
        (Option ℕ → W → ProxmoxClient → W × ProxmoxClient × Option (Result T AppError))
        → (ProxmoxClient → Ticket → HttpRequest)
        → Option ℕ
        → W
        → ProxmoxClient
        → Type 0
    Writes m request d w c =
        (reqs : List HttpRequest) × (log (m d w c).0 ≡ log w ++ reqs)
        × Exchange c (request c) (m d w c).1.ticket reqs

    write-Exchange :
        (method : Method) (what path : Str) (params : List (Str × Str)) (body : Body) (d : Option ℕ)
        (w : W) (c : ProxmoxClient)
        → Writes
            (current_ticket net >>= λ t. self net >>= λ c.
              timeout net post_timeout_secs what
                (send net (write_request method c path params body t))
              >>= handle_response net parse)
            (λ c. write_request method c path params body)
            d
            w
            c
    unfolding with_ticket write_request build_url
    write-Exchange method what path params body =
        exchange (λ c. write_request method c path params body)
          (λ c t.
            timeout net post_timeout_secs what
              (send net (write_request method c path params body t))
            >>= handle_response net parse)
          (λ c t.
            bind-Once log _ _ _
              (timeout-Once net log rec _ post_timeout_secs what _
                (send-Once net log rec (write_request method c path params body t)))
              (handle_response-Quiet net log rec parse))
          (λ c t.
            bind-Same _ _
              (timeout-Same net post_timeout_secs what _
                (send-Same net (write_request method c path params body t)))
              (handle_response-Same net parse))
          (λ c c' t e.
            ap (λ k. write_request method (record c { config = k }) path params body t) e)

    -- A deletion has no deadline of its own.
    delete-Exchange :
        (path : Str) (d : Option ℕ) (w : W) (c : ProxmoxClient)
        → Writes (delete_json net parse path) (λ c. write_request delete c path [] empty) d w c
    unfolding delete_json with_ticket write_request build_url
    delete-Exchange path =
        exchange (λ c. write_request delete c path [] empty)
          (λ c t. send net (write_request delete c path [] empty t) >>= handle_response net parse)
          (λ c t.
            bind-Once log _ _ _ (send-Once net log rec (write_request delete c path [] empty t))
              (handle_response-Quiet net log rec parse))
          (λ c t. bind-Same _ _ (send-Same net _) (handle_response-Same net parse))
          (λ c c' t e. ap (λ k. write_request delete (record c { config = k }) path [] empty t) e)

    -- Whatever the deadline, the network and the cluster do, each operation that writes sends one login,
    -- or one request, or both in this order, and nothing else; the request has the operation's method,
    -- parameters and body, and carries the ticket (the one the client had, or after a login the one
    -- stored then) and its token against request forgery. The world records its requests.
    pub Writes-Exchange :
        (path value node storage content filename : Str) (params : List (Str × Str))
        (bytes : List ℕ) (d : Option ℕ) (w : W) (c : ProxmoxClient)
        → Writes (post net parse path) (λ c. write_request Http.post c path [] empty) d w c
          × Writes
              (post_with_query net parse path params)
              (λ c. write_request Http.post c path params empty)
              d
              w
              c
          × Writes
              (post_no_default net parse path params)
              (λ c. write_request Http.post c path params empty)
              d
              w
              c
          × Writes
              (put_with_query net parse path params)
              (λ c. write_request put c path params empty)
              d
              w
              c
          × Writes
              (put_json net parse path value)
              (λ c. write_request put c path [] (json value))
              d
              w
              c
          × Writes (delete_json net parse path) (λ c. write_request delete c path [] empty) d w c
          × Writes
              (upload_file net parse node storage content filename bytes)
              (λ c.
                write_request Http.post c
                  (codes "nodes/" ++ node ++ codes "/storage/" ++ storage ++ codes "/upload")
                  []
                  (multipart filename bytes content))
              d
              w
              c
    unfolding post post_with_query post_no_default put_with_query put_json delete_json upload_file
    Writes-Exchange path value node storage content filename params bytes d w c = (
      write-Exchange Http.post (codes "POST " ++ path) path [] empty d w c,
      write-Exchange Http.post (codes "POST " ++ path) path params empty d w c,
      write-Exchange Http.post (codes "POST " ++ path) path params empty d w c,
      write-Exchange put (codes "PUT " ++ path) path params empty d w c,
      write-Exchange put (codes "PUT " ++ path) path [] (json value) d w c,
      delete-Exchange path d w c,
      let upload = codes "nodes/" ++ node ++ codes "/storage/" ++ storage ++ codes "/upload" in
          write-Exchange Http.post (codes "upload_file " ++ upload) upload []
            (multipart filename bytes content) d w c,
    )
