-- ===== src/Webhook/Dispatcher.antt =====
-- src/webhook/dispatcher.rs: the delivery to one endpoint, and its retries.
pub mod Delays
use moxui.Prelude.{
  ℕ, zero, suc, ◌+◌, ◌-◌, ◌%◌, ◌^◌, List, [], ◌∷◌, ◌++◌, Str, codes, Bool, Option, none, some,
  if◌then◌else◌, ltb, ◌==◌, leb, ◌&&◌, Result, ok, err,
}
use moxui.Webhook.{WebhookEndpoint}

-- A POST with the JSON body, and the header `X-Webhook-Signature` if there is one.
pub record Post : Type 0 where
  pub url : Str
  pub body : Str
  pub signature : Option Str
  pub timeout : ℕ

-- The network: `build` makes an HTTP client with a timeout, or tells why it cannot; `send` gives the
-- status and the body of the response, or why there is none. `sleep` waits some seconds.
pub record Network (W : Type 0) : Type 0 where
  pub build : ℕ → W → W × Result (Unit {0}) Str
  pub send : Post → W → W × Result (ℕ × Str) Str
  pub sleep : ℕ → W → W

-- `1 << n` on `u64`, whose distance is taken modulo 64 in a release build.
unfoldable pub delay_secs : ℕ → ℕ
delay_secs attempt = 2 ^ ((attempt - 1) % 64)

-- `hmac_hex` is the HMAC-SHA256 of a body under a key, in hexadecimal; `status_text` shows a status.
module _ {W : Type 0} (net : Network W) (hmac_hex : Str → Str → Result Str Str)
    (status_text : ℕ → Str) where
  unfoldable pub sign_payload : Str → Str → Result Str Str
  sign_payload body secret = hmac_hex secret body

  unfoldable pub request_of : WebhookEndpoint → Str → ℕ → Post
  unfolding sign_payload
  request_of endpoint body timeout = record {
    url = endpoint.url;
    body = body;
    signature = elim endpoint.secret [
      | none ↦ none
      | some secret ↦ elim (sign_payload body secret) [ ok s ↦ some s | err e ↦ none ]
    ];
    timeout = timeout;
  }

  unfoldable pub deliver_once : WebhookEndpoint → Str → ℕ → W → W × Result (Unit {0}) Str
  unfolding request_of
  deliver_once endpoint body timeout w =
      let (w', built) = net.build timeout w in
      elim built [
        | err e ↦ (w', err (codes "Failed to build HTTP client: " ++ e))
        | ok u ↦
            let (w'', answer) = net.send (request_of endpoint body timeout) w' in
            (
              w'',
              elim answer [
                | err e ↦ err (codes "HTTP request failed: " ++ e)
                | ok (status, text) ↦
                    if leb 200 status && ltb status 300
                    then ok tt
                    else err (codes "HTTP " ++ status_text status ++ codes ": " ++ text)
              ],
            )
      ]

  -- One round of the loop: every attempt but the first waits.
  unfoldable pub attempt_once : WebhookEndpoint → Str → ℕ → ℕ → W → W × Result (Unit {0}) Str
  unfolding delay_secs deliver_once
  attempt_once endpoint body timeout attempt w =
      deliver_once endpoint body timeout
        (if attempt == 0 then w else net.sleep (delay_secs attempt) w)

  -- The loop from an attempt on, with the attempts that are left. It ends at the first delivery.
  unfoldable pub attempts : WebhookEndpoint → Str → ℕ → ℕ → ℕ → W → W × Bool
  attempts endpoint body timeout zero attempt w = (w, Bool.false)
  attempts endpoint body timeout (suc left) attempt w =
      let (w', r) = attempt_once endpoint body timeout attempt w in
      elim r [
        | ok u ↦ (w', Bool.true)
        | err e ↦ attempts endpoint body timeout left (attempt + 1) w'
      ]

  -- Whether it was delivered is only logged.
  unfoldable pub deliver_with_retry : WebhookEndpoint → Str → ℕ → ℕ → W → W × Bool
  unfolding attempts attempt_once
  deliver_with_retry endpoint body timeout max_retries =
      attempts endpoint body timeout (max_retries + 1) 0
