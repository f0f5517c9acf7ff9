-- ===== src/Webhook/Subscriptions.antt =====
-- src/webhook/mod.rs: which endpoints an event reaches.
use moxui.Prelude.{
  map, List, [], ◌∷◌, Str, str_eq, str_eq_iff, str_eq_comm, Bool, false, not, ◌||◌, any, all,
  keep_if, is_some, Option-cases, none, some, ◌≡◌, refl, arith, inl, inr,
}
use moxui.Webhook.{
  WebhookEvent, vm_started, vm_stopped, vm_rebooted, vm_deleted, migration_started, audit_logged,
  user_login, user_logout, as_str, same_event, parse_event, parse_events, match_name, event_names,
  is_empty, is_subscribed, endpoint_of, WebhookConfig, WebhookEndpointConfig, WebhookService,
  from_config, dispatch_event,
}

-- The event's own name, and no other, is read as the event.
pub parse_event-as_str : (event : WebhookEvent) → parse_event (as_str event) ≡ some event
unfolding parse_event as_str str_eq
parse_event-as_str vm_started = refl
parse_event-as_str vm_stopped = refl
parse_event-as_str vm_rebooted = refl
parse_event-as_str vm_deleted = refl
parse_event-as_str migration_started = refl
parse_event-as_str audit_logged = refl
parse_event-as_str user_login = refl
parse_event-as_str user_logout = refl

-- Each pair of a list holds a text and the event of this name.
abbrev AreNamed : List (Str × WebhookEvent) → Type 0
AreNamed [] = Unit {0}
AreNamed ((name, event) ∷ names) = (name ≡ as_str event) × AreNamed names

match_name_sound :
    (e : Str) (event : WebhookEvent) (names : List (Str × WebhookEvent))
    → AreNamed names
    → match_name e names ≡ some event
    → e ≡ as_str event
unfolding match_name
match_name_sound e event [] h m = ground arith
match_name_sound e event ((name, ev) ∷ names) h m =
    ground (arith, str_eq_iff e name, match_name_sound e event names h.1)

event_names-AreNamed : AreNamed event_names
unfolding as_str
event_names-AreNamed = (refl, (refl, (refl, (refl, (refl, (refl, (refl, (refl, tt))))))))

parse_event_sound : (e : Str) (event : WebhookEvent) → parse_event e ≡ some event → e ≡ as_str event
unfolding parse_event
parse_event_sound e event m = match_name_sound e event event_names event_names-AreNamed m

-- No event has this name.
abbrev pub is_unknown : Str → Bool
is_unknown e = not (is_some (parse_event e))

-- The name of the event is among the names.
abbrev pub names : WebhookEvent → List Str → Bool
names event es = any (λ e. str_eq e (as_str event)) es

is_empty-parse_events : (es : List Str) → is_empty (parse_events es) ≡ all is_unknown es
unfolding parse_events
is_empty-parse_events [] = refl
is_empty-parse_events (e ∷ es) = ground (arith, is_empty-parse_events es)

same_event-parse :
    (event : WebhookEvent) (e : Str)
    → elim (parse_event e) [ none ↦ false | some ev ↦ same_event event ev ]
      ≡ str_eq e (as_str event)
unfolding same_event
same_event-parse event e = elim (Option-cases (parse_event e)) [
  | inl unknown ↦ ground (arith, unknown, parse_event-as_str event, str_eq_iff e (as_str event))
  | inr (ev, known) ↦
      rw (known, parse_event_sound e ev known) (str_eq_comm (as_str event) (as_str ev))
]

any-parse_events :
    (event : WebhookEvent) (es : List Str)
    → any (same_event event) (parse_events es) ≡ names event es
unfolding parse_events
any-parse_events event [] = refl
any-parse_events event (e ∷ es) =
    ground (arith, same_event-parse event e, any-parse_events event es)

-- An endpoint is told of an event whose name is among its subscriptions, and of every event if no
-- event has any of its subscriptions' names.
abbrev pub is_told : WebhookEvent → WebhookEndpointConfig → Bool
is_told event ep = all is_unknown ep.events || names event ep.events

is_subscribed-endpoint_of :
    (config : WebhookConfig) (event : WebhookEvent) (ep : WebhookEndpointConfig)
    → is_subscribed event (endpoint_of config ep) ≡ is_told event ep
unfolding is_subscribed endpoint_of
is_subscribed-endpoint_of config event ep =
    ground (arith, is_empty-parse_events ep.events, any-parse_events event ep.events)

keep_if-map :
    {A B : Type 0} (f : A → B) (p : B → Bool) (q : A → Bool)
    → ((a : A) → p (f a) ≡ q a)
    → (xs : List A) → keep_if p (map f xs) ≡ map f (keep_if q xs)
keep_if-map f p q h [] = refl
keep_if-map f p q h (x ∷ xs) = ground (arith, h x, keep_if-map f p q h xs)

-- Where notifications are configured, an event is delivered to the endpoints of the configuration
-- that subscribe to its name, and to those none of whose subscriptions is a known name, in their
-- order.
pub dispatch_event-from_config :
    (config : WebhookConfig) (service : WebhookService) (event : WebhookEvent)
    → from_config config ≡ some service
    → dispatch_event service event
      ≡ map (endpoint_of config) (keep_if (is_told event) config.endpoints)
unfolding dispatch_event from_config
dispatch_event-from_config config service event h = ground (
  arith,
  keep_if-map (endpoint_of config) (is_subscribed event) (is_told event)
      (is_subscribed-endpoint_of config event) config.endpoints,
)
