-- ===== src/Api/Lxcs.antt =====
-- src/api/lxcs.rs: the handlers about containers.
use moxui.Prelude.{
  ℕ, map, List, [], ◌∷◌, ◌++◌, Str, codes, str_eq, Bool, false, Option, none, some, if◌then◌else◌,
  any, unwrap_or, Result,
}
use moxui.Prelude.Decimal.{decimal}
use mathlib.Core.Option
use moxui.Prelude.Results.{ok_or}
use moxui.Error.{bad_request, not_found}
use moxui.Auth.Jwt.{Claims}
use moxui.Proxmox.Http.{Net}
use moxui.Proxmox.Types.{F64, VmResource, flag, present}
use moxui.Proxmox.Types.Lxc.{LxcActionRequest, DeleteLxcRequest}
use moxui.Proxmox.Client.{get, post_with_query}
use moxui.Proxmox.Client.Containers
use moxui.Api.Handler.{
  Handler, Answer, number, string, answer, refuse, ◌>>=◌, ◌>>◌, require_operator, lift, on_cluster,
}
use moxui.Api.Listing.{Listing, gather}

-- A value of a JSON object: a text, an unsigned number, another number with its text, a Boolean,
-- or anything else with its JSON text.
pub data JsonValue : Type 0 where
  text : Str → JsonValue
  unsigned : ℕ → JsonValue
  float : Str → JsonValue
  boolean : Bool → JsonValue
  other : Str → JsonValue

pub record LxcRow : Type 0 where
  pub cluster : Str
  pub vmid : ℕ
  pub name : Str
  pub node : Str
  pub status : Str
  pub cpu : Option F64
  pub cpus : Option F64
  pub mem : Option ℕ
  pub maxmem : Option ℕ
  pub uptime : Option ℕ
  pub template : Option ℕ

unfoldable pub lxc_row : Str → VmResource → LxcRow
lxc_row cluster r = record {
  cluster = cluster;
  vmid = r.vmid;
  name = r.name;
  node = r.node;
  status = r.status;
  cpu = r.cpu;
  cpus = r.cpus;
  mem = r.mem;
  maxmem = r.maxmem;
  uptime = r.uptime;
  template = r.template;
}

pub record CreateLxcRequest : Type 0 where
  pub vmid : Option ℕ
  pub hostname : Option Str
  pub rootfs : Option Str
  pub storage : Option Str
  pub ostemplate : Option Str
  pub memory : Option ℕ
  pub cores : Option ℕ
  pub swap : Option ℕ
  pub password : Option Str
  pub ssh_public_keys : Option Str
  pub net0 : Option Str
  pub unprivileged : Option Bool
  pub start : Option Bool
  pub extra : List (Str × JsonValue)

-- The parameters that the handler collects. The fields in `extra` are not among them.
unfoldable pub create_params : CreateLxcRequest → List (Str × Str)
create_params req = present (
    (codes "vmid", Option.map decimal req.vmid)
    ∷ (codes "hostname", req.hostname)
    ∷ (codes "rootfs", req.rootfs)
    ∷ (codes "storage", req.storage)
    ∷ (codes "ostemplate", req.ostemplate)
    ∷ (codes "memory", Option.map decimal req.memory)
    ∷ (codes "cores", Option.map decimal req.cores)
    ∷ (codes "swap", Option.map decimal req.swap)
    ∷ (codes "password", req.password)
    ∷ (codes "ssh-public-keys", req.ssh_public_keys)
    ∷ (codes "net0", req.net0)
    ∷ (codes "unprivileged", Option.map flag req.unprivileged)
    ∷ (codes "start", Option.map flag req.start)
    ∷ [])

unfoldable pub action_params : LxcActionRequest → List (Str × Str)
action_params opts = present (
    (codes "force", Option.map flag opts.force)
    ∷ (codes "timeout", Option.map decimal opts.timeout)
    ∷ [])

unfoldable pub json_text : JsonValue → Str
unfolding flag
json_text (text s) = s
json_text (unsigned n) = decimal n
json_text (float s) = s
json_text (boolean b) = flag b
json_text (other s) = s

-- The parameters of a body, which are none if it is not an object.
unfoldable pub config_params : Option (List (Str × JsonValue)) → List (Str × Str)
unfolding json_text
config_params none = []
config_params (some fields) = map (λ f. (f.0, json_text f.1)) fields

-- `start`, `stop`, `shutdown` and `reboot`.
unfoldable pub is_lxc_action : Str → Bool
is_lxc_action action =
    any (λ a. str_eq a action)
      (codes "start" ∷ codes "stop" ∷ codes "shutdown" ∷ codes "reboot" ∷ [])

module _ {W : Type 0} (net : Net W) where
  unfoldable pub list_lxcs : (Str → Result (List VmResource) Str) → Handler W (Listing LxcRow)
  unfolding gather Containers.list_lxcs lxc_row
  list_lxcs parse = gather lxc_row (Containers.list_lxcs net parse)

  module _ {T : Type 0} (parse : Str → Result (Option T) Str) where
    unfoldable pub lxc_detail : Str → Str → ℕ → Handler W T
    unfolding on_cluster Containers.lxc_detail
    lxc_detail cluster node vmid = do
      status ← on_cluster cluster (Containers.lxc_detail net parse node vmid)
      lift (
          ok_or status (
            not_found (
              codes "LXC "
              ++ decimal vmid
              ++ codes " not found in "
              ++ cluster
              ++ codes "/"
              ++ node)))

  module _ (json_string : Str → Result Str Str) where
    unfoldable pub lxc_action_handler :
        Claims → Str → Str → ℕ → Str → Option LxcActionRequest → Handler W Answer
    unfolding require_operator on_cluster Containers.lxc_action action_params is_lxc_action
    lxc_action_handler claims cluster node vmid action body = do
      lift (require_operator net.status_text claims)
      if is_lxc_action action
          then (do
            upid ← on_cluster cluster (
                Containers.lxc_action net json_string node vmid action
                  (elim body [ none ↦ [] | some opts ↦ action_params opts ]))
            answer (
                (codes "vmid", number vmid)
                ∷ (codes "action", string action)
                ∷ (codes "upid", string upid)
                ∷ (codes "cluster", string cluster)
                ∷ []))
          else refuse (
              bad_request (
                codes "unknown lxc action '"
                ++ action
                ++ codes "'; expected start|stop|shutdown|reboot"))

    unfoldable pub lxc_delete_handler :
        Claims → Str → Str → ℕ → Option DeleteLxcRequest → Handler W Answer
    unfolding require_operator on_cluster Containers.lxc_delete
    lxc_delete_handler claims cluster node vmid body = do
      lift (require_operator net.status_text claims)
      let opts = unwrap_or body record { purge = false; force = false; skiplock = false }
      upid ←
          on_cluster cluster
            (Containers.lxc_delete net json_string node vmid opts.purge opts.force opts.skiplock)
      answer (
          (codes "vmid", number vmid)
          ∷ (codes "action", string (codes "delete"))
          ∷ (codes "upid", string upid)
          ∷ (codes "cluster", string cluster)
          ∷ [])

  -- The answers are the objects' numbers and texts, and their `result`.
  module _ {T : Type 0} (value : Str → Result T Str) where
    unfoldable pub lxc_create_handler :
        Claims → Str → Str → CreateLxcRequest → Handler W (Answer × T)
    unfolding require_operator on_cluster post_with_query create_params
    lxc_create_handler claims cluster node body = do
      lift (require_operator net.status_text claims)
      result ←
          on_cluster cluster (
            post_with_query net value (codes "nodes/" ++ node ++ codes "/lxc") (create_params body))
      answer ((codes "node", string node) ∷ (codes "cluster", string cluster) ∷ [], result)

    unfoldable pub lxc_config_handler : Str → Str → ℕ → Handler W T
    unfolding on_cluster get
    lxc_config_handler cluster node vmid =
        on_cluster cluster (
          get net value
            (codes "nodes/" ++ node ++ codes "/lxc/" ++ decimal vmid ++ codes "/config"))

    unfoldable pub lxc_update_config_handler :
        Claims → Str → Str → ℕ → Option (List (Str × JsonValue)) → Handler W (Answer × T)
    unfolding require_operator on_cluster post_with_query config_params
    lxc_update_config_handler claims cluster node vmid body = do
      lift (require_operator net.status_text claims)
      result ← on_cluster cluster (
          post_with_query net value
            (codes "nodes/" ++ node ++ codes "/lxc/" ++ decimal vmid ++ codes "/config")
            (config_params body))
      answer ((codes "vmid", number vmid) ∷ (codes "cluster", string cluster) ∷ [], result)
