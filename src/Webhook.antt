-- ===== src/Webhook.antt =====
-- src/webhook/mod.rs: the endpoints that are told of events.
pub mod Dispatcher
pub mod Subscriptions
use moxui.Prelude.{
  ℕ, map, List, [], ◌∷◌, Str, codes, str_eq, Bool, true, false, not, ◌&&◌, ◌||◌, any, keep_if,
  Option, none, some, if◌then◌else◌, unwrap_or,
}

pub data WebhookEvent : Type 0 where
  vm_started vm_stopped vm_rebooted vm_deleted : WebhookEvent
  migration_started audit_logged user_login user_logout : WebhookEvent

unfoldable pub as_str : WebhookEvent → Str
as_str vm_started = codes "VmStarted"
as_str vm_stopped = codes "VmStopped"
as_str vm_rebooted = codes "VmRebooted"
as_str vm_deleted = codes "VmDeleted"
as_str migration_started = codes "MigrationStarted"
as_str audit_logged = codes "AuditLogged"
as_str user_login = codes "UserLogin"
as_str user_logout = codes "UserLogout"

-- The `==` that the events derive: they differ as their texts do.
unfoldable pub same_event : WebhookEvent → WebhookEvent → Bool
unfolding as_str
same_event a b = str_eq (as_str a) (as_str b)

pub record WebhookEndpointConfig : Type 0 where
  pub name : Str
  pub url : Str
  pub events : List Str
  pub secret : Option Str
  pub max_retries : Option ℕ

pub record WebhookConfig : Type 0 where
  pub enabled : Bool
  pub retry_count : ℕ
  pub timeout_secs : ℕ
  pub endpoints : List WebhookEndpointConfig

pub record WebhookEndpoint : Type 0 where
  pub name : Str
  pub url : Str
  pub events : List WebhookEvent
  pub secret : Option Str
  pub max_retries : ℕ

-- The handles of the tasks are never filled.
pub record WebhookService : Type 0 where
  pub endpoints : List WebhookEndpoint
  pub enabled : Bool
  pub timeout : ℕ
  pub default_retries : ℕ

-- The arms of the match, in its order.
abbrev pub event_names : List (Str × WebhookEvent)
event_names =
    (codes "VmStarted", vm_started)
    ∷ (codes "VmStopped", vm_stopped)
    ∷ (codes "VmRebooted", vm_rebooted)
    ∷ (codes "VmDeleted", vm_deleted)
    ∷ (codes "MigrationStarted", migration_started)
    ∷ (codes "AuditLogged", audit_logged)
    ∷ (codes "UserLogin", user_login)
    ∷ (codes "UserLogout", user_logout)
    ∷ []

unfoldable pub match_name : Str → List (Str × WebhookEvent) → Option WebhookEvent
match_name e [] = none
match_name e ((name, event) ∷ names) = if str_eq e name then some event else match_name e names

unfoldable pub parse_event : Str → Option WebhookEvent
unfolding match_name
parse_event e = match_name e event_names

-- `filter_map`.
unfoldable pub parse_events : List Str → List WebhookEvent
unfolding parse_event
parse_events [] = []
parse_events (e ∷ es) =
    let rest = parse_events es in elim (parse_event e) [ none ↦ rest | some event ↦ event ∷ rest ]

abbrev pub is_empty : {A : Type 0} → List A → Bool
is_empty [] = true
is_empty (x ∷ xs) = false

unfoldable pub endpoint_of : WebhookConfig → WebhookEndpointConfig → WebhookEndpoint
unfolding parse_events
endpoint_of config ep = record {
  name = ep.name;
  url = ep.url;
  events = if is_empty ep.events then [] else parse_events ep.events;
  secret = ep.secret;
  max_retries = unwrap_or ep.max_retries config.retry_count;
}

unfoldable pub from_config : WebhookConfig → Option WebhookService
unfolding endpoint_of
from_config config =
    if not config.enabled || is_empty config.endpoints
    then none
    else some record {
      endpoints = map (endpoint_of config) config.endpoints;
      enabled = true;
      timeout = config.timeout_secs;
      default_retries = config.retry_count;
    }

unfoldable pub is_subscribed : WebhookEvent → WebhookEndpoint → Bool
unfolding same_event
is_subscribed event ep = is_empty ep.events || any (same_event event) ep.events

-- The endpoints to which an event is delivered, each by a task of its own.
unfoldable pub dispatch_event : WebhookService → WebhookEvent → List WebhookEndpoint
unfolding is_subscribed
dispatch_event service event =
    if service.enabled then keep_if (is_subscribed event) service.endpoints else []

unfoldable pub event_color : WebhookEvent → ℕ
event_color vm_started = 0x00ff00
event_color vm_stopped = 0xff0000
event_color vm_rebooted = 0xffaa00
event_color vm_deleted = 0xcc0000
event_color migration_started = 0x0088ff
event_color audit_logged = 0x888888
event_color user_login = 0x00cc88
event_color user_logout = 0x888888
