-- ===== src/Proxmox/Client/Steady.antt =====
-- src/proxmox/client.rs: the requests and the calls made of them keep a client's configuration and
-- its ticket, and end with a result.
use moxui.Prelude.{
  if◌then◌else◌, ok, List, [], ◌++◌, Str, codes, Bool, true, false, Option, none, some, Result,
  refl,
}
use moxui.Proxmox.Http
use moxui.Proxmox.Http.{Method, Body, HttpResponse, Net, empty, json, put, delete}
use moxui.Proxmox.Call.{Call, ◌>>=◌, send, timeout}
use moxui.Proxmox.Call.Steady.{
  Steady, done-Steady, fail-Steady, bind-Steady, record_success-Steady, set_ticket-Steady,
  record_failure-Steady, send-Steady, decode-Steady, timeout-Steady,
}
use moxui.Proxmox.Client.{
  login, login_request, read_request, write_request, exposed, current_ticket, ensure_ticket,
  should_refresh, self, handle_response, get, post, post_with_query, post_no_default,
  put_with_query, put_json, delete_json, post_timeout_secs,
}

module _ {W : Type 0} (net : Net W) where
  pub if-Steady :
      {A : Type 0} (b : Bool) (m n : Call W A) → Steady m → Steady n → Steady (if b then m else n)
  if-Steady true m n hm hn = hm
  if-Steady false m n hm hn = hn

  self-Steady : Steady (self net)
  self-Steady = record { follows = λ d w c. (refl, λ t e. (t, e)); completes = λ w c. (ok c, refl) }

  pub login-Steady : Steady (login net)
  unfolding login
  login-Steady = bind-Steady _ _ self-Steady λ c.
      bind-Steady _ _ (send-Steady net (login_request c)) λ resp.
        if-Steady (net.is_success resp.status) _ _
          (bind-Steady _ _ (decode-Steady net net.parse_ticket resp)
            λ t. bind-Steady _ _ (set_ticket-Steady t) λ _. record_success-Steady)
          (bind-Steady _ _ (record_failure-Steady net) λ _. fail-Steady _)

  should_refresh-Steady : Steady (should_refresh net)
  unfolding should_refresh
  should_refresh-Steady = record {
    follows = λ d w c. (refl, λ t e. (t, e));
    completes = λ w c. (_, refl);
  }

  ensure_ticket-Steady : Steady (ensure_ticket net)
  unfolding ensure_ticket
  ensure_ticket-Steady =
      bind-Steady _ _ should_refresh-Steady λ due. if-Steady due _ _ login-Steady (done-Steady tt)

  exposed-Steady : (o : Option Http.Ticket) → Steady (exposed net o)
  unfolding exposed
  exposed-Steady none = fail-Steady _
  exposed-Steady (some t) = done-Steady t

  pub current_ticket-Steady : Steady (current_ticket net)
  unfolding current_ticket
  current_ticket-Steady =
      bind-Steady _ _ ensure_ticket-Steady
        λ u. bind-Steady _ _ self-Steady λ c. exposed-Steady c.ticket

  module _ {T : Type 0} (parse : Str → Result T Str) where
    handle_response-Steady : (resp : HttpResponse) → Steady (handle_response net parse resp)
    unfolding handle_response
    handle_response-Steady resp =
        if-Steady (net.is_success resp.status) _ _
          (bind-Steady _ _ (decode-Steady net parse resp)
            λ value. bind-Steady _ _ record_success-Steady λ _. done-Steady value)
          (bind-Steady _ _ (record_failure-Steady net) λ _. fail-Steady _)

    pub get-Steady : (path : Str) → Steady (get net parse path)
    unfolding get
    get-Steady path = bind-Steady _ _ current_ticket-Steady λ t.
        bind-Steady _ _ self-Steady
          λ c. bind-Steady _ _ (send-Steady net (read_request c path t)) handle_response-Steady

    -- A write under its timeout.
    write-Steady :
        (method : Method) (what path : Str) (params : List (Str × Str)) (body : Body)
        → Steady (
            current_ticket net >>= λ t. self net >>= λ c.
            timeout net post_timeout_secs what
              (send net (write_request method c path params body t))
            >>= handle_response net parse)
    write-Steady method what path params body = bind-Steady _ _ current_ticket-Steady λ t.
        bind-Steady _ _ self-Steady λ c.
          bind-Steady _ _
            (timeout-Steady net _ _ _ (send-Steady net (write_request method c path params body t)))
            handle_response-Steady

    pub post-Steady : (path : Str) → Steady (post net parse path)
    unfolding post
    post-Steady path = write-Steady Http.post (codes "POST " ++ path) path [] empty

    pub post_with_query-Steady :
        (path : Str) (params : List (Str × Str)) → Steady (post_with_query net parse path params)
    unfolding post_with_query
    post_with_query-Steady path params =
        write-Steady Http.post (codes "POST " ++ path) path params empty

    pub post_no_default-Steady :
        (path : Str) (params : List (Str × Str)) → Steady (post_no_default net parse path params)
    unfolding post_no_default
    post_no_default-Steady path params =
        write-Steady Http.post (codes "POST " ++ path) path params empty

    pub put_with_query-Steady :
        (path : Str) (params : List (Str × Str)) → Steady (put_with_query net parse path params)
    unfolding put_with_query
    put_with_query-Steady path params = write-Steady put (codes "PUT " ++ path) path params empty

    pub put_json-Steady : (path value : Str) → Steady (put_json net parse path value)
    unfolding put_json
    put_json-Steady path value = write-Steady put (codes "PUT " ++ path) path [] (json value)

    pub delete_json-Steady : (path : Str) → Steady (delete_json net parse path)
    unfolding delete_json
    delete_json-Steady path = bind-Steady _ _ current_ticket-Steady λ t.
        bind-Steady _ _ self-Steady λ c.
          bind-Steady _ _ (send-Steady net (write_request delete c path [] empty t))
            handle_response-Steady
