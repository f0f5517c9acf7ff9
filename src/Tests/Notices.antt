-- ===== src/Tests/Notices.antt =====
-- src/webhook on two endpoints, and a network that counts.
use moxui.Prelude.{
  ℕ, ◌+◌, ◌^◌, ◌≤◌, ◌<◌, map, keep_if, [], ◌∷◌, Str, codes, str_eq, true, none, Result, ok, err,
  ◌≡◌, refl, arith,
}
use moxui.Webhook.{
  WebhookConfig, WebhookEndpointConfig, WebhookService, vm_deleted, parse_event, match_name, as_str,
  endpoint_of, from_config, dispatch_event,
}
use moxui.Webhook.Subscriptions.{is_told, dispatch_event-from_config}
use moxui.Webhook.Dispatcher.{Network, deliver_with_retry}
use moxui.Webhook.Dispatcher.Delays.{Metered, deliver_with_retry_lem, deliver_with_retry_failed}

abbrev chat : WebhookEndpointConfig
chat = record {
  name = codes "chat";
  url = codes "http://chat";
  events = codes "VmStarted" ∷ [];
  secret = none;
  max_retries = none;
}

-- An endpoint whose only subscription is misspelt.
abbrev misspelt : WebhookEndpointConfig
misspelt = record chat { name = codes "misspelt"; events = codes "VmStart" ∷ [] }

abbrev config : WebhookConfig
config = record {
  enabled = true;
  endpoints = chat ∷ misspelt ∷ [];
  retry_count = 3;
  timeout_secs = 10;
}

abbrev service : WebhookService
service = record {
  endpoints = map (endpoint_of config) config.endpoints;
  enabled = true;
  timeout = 10;
  default_retries = 3;
}

dispatch_event-from_config_example :
    dispatch_event service vm_deleted
    ≡ map (endpoint_of config) (keep_if (is_told vm_deleted) config.endpoints)
unfolding from_config
dispatch_event-from_config_example = dispatch_event-from_config config service vm_deleted refl

-- Only the endpoint with the misspelt subscription is told of the deletion.
told : keep_if (is_told vm_deleted) config.endpoints ≡ misspelt ∷ []
unfolding parse_event match_name str_eq as_str
told = refl

-- A network on which nothing is answered, with what was sent and slept.
abbrev silent : Network (ℕ × ℕ)
silent = record {
  build = λ t w. (w, ok tt);
  send = λ post w. ((w.0 + 1, w.1), err (codes "no route"));
  sleep = λ n w. (w.0, w.1 + n);
}

abbrev meters : Metered silent
meters = record {
  sent = λ w. w.0;
  slept = λ w. w.1;
  send-sent = λ p w. refl;
  send-slept = λ p w. refl;
  build-sent = λ t w. refl;
  build-slept = λ t w. refl;
  sleep-sent = λ n w. refl;
  sleep-slept = λ n w. refl;
}

abbrev hmac : Str → Str → Result Str Str
hmac key body = ok body

abbrev status_text : ℕ → Str
status_text n = []

deliver_with_retry_lem_example :
    let (w', delivered) =
      deliver_with_retry silent hmac status_text
        (endpoint_of config chat)
        (codes "{}")
        10
        3
        (0, 0) in
    (0 + 1 ≤ w'.0) × (w'.0 ≤ 0 + 3 + 1) × (w'.1 < 0 + 2 ^ 3)
deliver_with_retry_lem_example =
    deliver_with_retry_lem silent meters hmac status_text (endpoint_of config chat) (codes "{}") 10
      (λ w. refl) 3 (0, 0) (omega arith)

deliver_with_retry_failed_example :
    let (w', delivered) =
      deliver_with_retry silent hmac status_text
        (endpoint_of config chat)
        (codes "{}")
        10
        3
        (0, 0) in
    (w'.0 ≡ 0 + 3 + 1) × (w'.1 + 1 ≡ 0 + 2 ^ 3)
unfolding deliver_with_retry
deliver_with_retry_failed_example =
    deliver_with_retry_failed silent meters hmac status_text (endpoint_of config chat) (codes "{}")
      10 (λ w. refl) 3 (0, 0) (omega arith) refl
