-- ===== src/Tests/Clusters.antt =====
-- src/proxmox/client.rs and src/api: the theorems about clusters at concrete inputs.
use moxui.Prelude.{
  List, [], ◌∷◌, ◌++◌, Str, codes, true, ◌&&◌, none, some, Result, ok, err, ◌≡◌, refl, arith, leb,
  inl,
}
use moxui.Prelude.Int.{pos, sub_i64}
use moxui.Auth.Jwt.{Claims}
use moxui.Proxmox.CircuitBreaker.{CircuitBreaker}
use moxui.Proxmox.Http.{HttpRequest, HttpResponse, Ticket, Net, empty}
use moxui.Proxmox.Call.{ClusterConfig, ProxmoxClient, ◌>>=◌}
use moxui.Proxmox.Call.Sends.{Records}
use moxui.Proxmox.Client.{
  get, post, read_request, handle_response, delete_json, current_ticket, ensure_ticket,
  should_refresh, look_at, is_due, exposed,
}
use moxui.Proxmox.Client.Requests.{Exchange, get-Exchange, Writes-Exchange, Writes}
use moxui.Proxmox.Client.Breaker.{handle_response-breaker, judged}
use moxui.Proxmox.Client.Deadline.{Hung, TimesOut, Writes-TimesOut}
use moxui.Proxmox.Client.Storages.{upload_file}
use moxui.Proxmox.Client.Vms.{list_vms}
use moxui.Proxmox.Client.Cluster.{ping}
use moxui.Proxmox.Client.Unreachable.{Unreachable, get-Still}
use moxui.Proxmox.Http
use moxui.Proxmox.Http.{put, delete, json, multipart}
use moxui.Proxmox.Client.{write_request, post_with_query, post_no_default, put_with_query, put_json}
use moxui.Api.Vms.Bulk.{BulkVmRef}
use moxui.Auth.Middleware.{extract_cluster_from_path}
use moxui.Auth.Middleware.Paths.{join_slash, IsSegment}
use moxui.Proxmox.Types.{NodeNetwork, VmResource}
use moxui.Api.Networks.{list_networks, list_vlans}
use moxui.Api.Networks.Vlans.{answer_map, vlans_among, list_vlans-list_networks}
use moxui.Api.Routes.{segments_of, cluster_scoped}
use moxui.Api.Routes.Scope.{fill, extract_cluster_from_path-cluster_scoped}
use moxui.Tests.Toy.{toy_claims}

-- A world that is the list of the requests sent, and answers each with a body "x".
abbrev pub toy_ticket : Ticket
toy_ticket = record {
  ticket = codes "T";
  csrf_token = codes "C";
  username = codes "root";
  expires_at = pos 7200;
}

abbrev pub reply : HttpResponse
reply = record { status = 200; connection = 0 }

abbrev pub toy_net : Net (List HttpRequest)
toy_net = record {
  send = λ req w. (w ++ (req ∷ []), ok reply);
  send_until = λ t req w. (w ++ (req ∷ []), some (ok reply));
  receive = λ n w. (w, ok (codes "x"));
  receive_until = λ t n w. (w, some (ok (codes "x")));
  instant = λ w. (w, 0);
  utc_now = λ w. (w, pos 0);
  system_now = λ w. (w, 5);
  is_success = λ n. leb 200 n && leb n 299;
  status_text = λ n. codes "status";
  parse_ticket = λ s. ok toy_ticket;
}

abbrev toy_log : List HttpRequest → List HttpRequest
toy_log w = w

toy_records : Records toy_net toy_log
toy_records = record {
  send_log = λ req w. refl;
  send_until_log = λ t req w. refl;
  receive_log = λ n w. refl;
  receive_until_log = λ t n w. refl;
  instant_log = λ w. refl;
  utc_now_log = λ w. refl;
  system_now_log = λ w. refl;
}

abbrev toy_config : ClusterConfig
toy_config = record {
  name = codes "a";
  url = codes "https://a/";
  username = codes "root";
  password = codes "p";
  realm = codes "pam";
}

abbrev toy_breaker : CircuitBreaker
toy_breaker = record { failure_threshold = 5; cooldown = 30; failure_count = 0; opened_at = 0 }

abbrev pub toy_client : ProxmoxClient
toy_client = record { config = toy_config; ticket = none; circuit_breaker = toy_breaker }

abbrev pub parse : Str → Result Str Str
parse s = ok s

get-Exchange_example :
    (reqs : List HttpRequest) × ((get toy_net parse (codes "/version") none [] toy_client).0
      ≡ [] ++ reqs)
    × Exchange toy_client
        (read_request toy_client (codes "/version"))
        (get toy_net parse (codes "/version") none [] toy_client).1.ticket
        reqs
get-Exchange_example =
    get-Exchange toy_net toy_log toy_records parse (codes "/version") none [] toy_client

Writes-Exchange_example :
    Writes toy_net toy_log toy_records parse
      (post toy_net parse (codes "/x"))
      (λ c. write_request Http.post c (codes "/x") [] empty)
      none
      []
      toy_client
    × Writes toy_net toy_log toy_records parse
        (post_with_query toy_net parse (codes "/x") [])
        (λ c. write_request Http.post c (codes "/x") [] empty)
        none
        []
        toy_client
    × Writes toy_net toy_log toy_records parse
        (post_no_default toy_net parse (codes "/x") [])
        (λ c. write_request Http.post c (codes "/x") [] empty)
        none
        []
        toy_client
    × Writes toy_net toy_log toy_records parse
        (put_with_query toy_net parse (codes "/x") [])
        (λ c. write_request put c (codes "/x") [] empty)
        none
        []
        toy_client
    × Writes toy_net toy_log toy_records parse
        (put_json toy_net parse (codes "/x") (codes "{}"))
        (λ c. write_request put c (codes "/x") [] (json (codes "{}")))
        none
        []
        toy_client
    × Writes toy_net toy_log toy_records parse
        (delete_json toy_net parse (codes "/x"))
        (λ c. write_request delete c (codes "/x") [] empty)
        none
        []
        toy_client
    × Writes toy_net toy_log toy_records parse
        (upload_file toy_net parse
          (codes "n")
          (codes "local")
          (codes "iso")
          (codes "a.iso")
          (0 ∷ []))
        (λ c.
          write_request Http.post c
            (codes "nodes/n/storage/local/upload")
            []
            (multipart (codes "a.iso") (0 ∷ []) (codes "iso")))
        none
        []
        toy_client
Writes-Exchange_example =
    Writes-Exchange toy_net toy_log toy_records parse (codes "/x") (codes "{}") (codes "n")
      (codes "local") (codes "iso") (codes "a.iso") [] (0 ∷ []) none [] toy_client

-- A cluster that refuses every connection.
abbrev down_net : Net (List HttpRequest)
down_net = record toy_net {
  send = λ req w. (w, err (codes "refused"));
  send_until = λ t req w. (w, none);
}

down_net-Unreachable : Unreachable down_net
down_net-Unreachable req w = ((codes "refused", refl), λ t. inl refl)

abbrev no_vms : Str → Result (List VmResource) Str
no_vms text = ok []

get-Still_example :
    ((get down_net parse (codes "/version") none [] toy_client).1 ≡ toy_client)
    × ((list_vms down_net no_vms none [] toy_client).1 ≡ toy_client)
    × ((ping down_net parse none [] toy_client).1 ≡ toy_client)
get-Still_example =
    get-Still down_net down_net-Unreachable parse no_vms (codes "/version") none [] toy_client

-- A cluster that answers a login, but nothing under a deadline.
abbrev hung_net : Net (List HttpRequest)
hung_net = record toy_net { send_until = λ t req w. (w, none) }

hung_net-Hung : Hung hung_net
hung_net-Hung t req w = refl

abbrev known_client : ProxmoxClient
known_client = record toy_client { ticket = some toy_ticket }

Writes-TimesOut_example :
    TimesOut hung_net hung_net-Hung parse
      (post hung_net parse (codes "/x"))
      (codes "POST /x")
      none
      []
      known_client
      known_client
    × TimesOut hung_net hung_net-Hung parse
        (post_with_query hung_net parse (codes "/x") [])
        (codes "POST /x")
        none
        []
        known_client
        known_client
    × TimesOut hung_net hung_net-Hung parse
        (post_no_default hung_net parse (codes "/x") [])
        (codes "POST /x")
        none
        []
        known_client
        known_client
    × TimesOut hung_net hung_net-Hung parse
        (put_with_query hung_net parse (codes "/x") [])
        (codes "PUT /x")
        none
        []
        known_client
        known_client
    × TimesOut hung_net hung_net-Hung parse
        (put_json hung_net parse (codes "/x") (codes "{}"))
        (codes "PUT /x")
        none
        []
        known_client
        known_client
    × TimesOut hung_net hung_net-Hung parse
        (upload_file hung_net parse
          (codes "n")
          (codes "local")
          (codes "iso")
          (codes "a.iso")
          (0 ∷ []))
        (codes "upload_file nodes/n/storage/local/upload")
        none
        []
        known_client
        known_client
unfolding current_ticket ensure_ticket should_refresh look_at is_due exposed ◌>>=◌ sub_i64
Writes-TimesOut_example =
    Writes-TimesOut hung_net hung_net-Hung parse (codes "/x") (codes "{}") (codes "n")
      (codes "local") (codes "iso") (codes "a.iso") [] (0 ∷ []) none [] [] known_client known_client
      toy_ticket refl

handle_response-breaker_example :
    (handle_response toy_net parse reply none [] toy_client).1.circuit_breaker
    ≡ judged true (handle_response toy_net parse reply none [] toy_client).2 5 toy_breaker
handle_response-breaker_example = handle_response-breaker toy_net parse reply none [] toy_client

abbrev ref_a : BulkVmRef
ref_a = record { cluster = codes "a"; node = codes "n"; vmid = 7 }

abbrev boss_claims : Claims
boss_claims = record toy_claims { role = codes "operator" }

abbrev all_x : Str → Str
all_x name = codes "x"

all_x-IsSegment : (name : Str) → IsSegment (all_x name)
unfolding IsSegment
all_x-IsSegment name = ((λ e. ground (arith, e)), refl)

extract_cluster_from_path-cluster_scoped_example :
    extract_cluster_from_path
      (join_slash (fill all_x (segments_of (codes "/api/v1/vms/:cluster/:vmid"))))
    ≡ some (codes "x")
unfolding cluster_scoped
extract_cluster_from_path-cluster_scoped_example =
    extract_cluster_from_path-cluster_scoped 0 (codes "/api/v1/vms/:cluster/:vmid") all_x refl
      all_x-IsSegment

abbrev bridge : NodeNetwork
bridge = record {
  iface = codes "vmbr0";
  kind = codes "bridge";
  active = some 1;
  address = none;
  gateway = none;
  address6 = none;
  gateway6 = none;
  bridge_ports = some (codes "eno1");
  iface_vlan_raw_device = none;
  vlan_id = none;
  autostart = some 1;
  comments = none;
}

abbrev interfaces : Str → Result (List NodeNetwork) Str
interfaces s = ok (
    bridge ∷ record bridge { iface = codes "eno1.10"; kind = codes "vlan"; vlan_id = some 10 } ∷ [])

list_vlans-list_networks_example : list_vlans toy_net interfaces [] (toy_client ∷ []) ≡ (
    let (w', cs', r) = list_networks toy_net interfaces [] (toy_client ∷ []) in
    (w', cs', answer_map vlans_among r))
list_vlans-list_networks_example = list_vlans-list_networks toy_net interfaces [] (toy_client ∷ [])
