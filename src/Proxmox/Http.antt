-- ===== src/Proxmox/Http.antt =====
-- What src/proxmox/client.rs uses of other crates: the HTTP client (reqwest), the clocks, and
-- `tokio::time::timeout`. `W` is the state of the world outside the program.
use moxui.Prelude.{ℕ, List, Str, Bool, Option, Result}
use moxui.Prelude.Int.{ℤ}

pub data Method : Type 0 where
  get post put delete : Method

-- A request's body: none, a JSON text, the JSON object of a login, or a multipart form with a file
-- (its name and bytes) and its content kind.
pub data Body : Type 0 where
  empty : Body
  json : Str → Body
  credentials : Str → Str → Body
  multipart : Str → List ℕ → Str → Body

pub record HttpRequest : Type 0 where
  pub method : Method
  pub url : Str
  pub query : List (Str × Str)
  pub headers : List (Str × Str)
  pub body : Body

-- A response's status, and the connection from which its body is still to be read.
pub record HttpResponse : Type 0 where
  pub status : ℕ
  pub connection : ℕ

-- proxmox/auth.rs: the session that a login gives.
pub record Ticket : Type 0 where
  pub ticket : Str
  pub csrf_token : Str
  pub username : Str
  pub expires_at : ℤ

pub record Net (W : Type 0) : Type 0 where
  -- `send` gives the response or the error's text. With a deadline the answer is `none` if the
  -- deadline passes first. `receive` reads a body, in the same way.
  pub send : HttpRequest → W → W × Result HttpResponse Str
  pub send_until : ℕ → HttpRequest → W → W × Option (Result HttpResponse Str)
  pub receive : ℕ → W → W × Result Str Str
  pub receive_until : ℕ → ℕ → W → W × Option (Result Str Str)
  -- `Instant::now` in nanoseconds, `chrono::Utc::now` in seconds, and the breaker's clock.
  pub instant : W → W × ℕ
  pub utc_now : W → W × ℤ
  pub system_now : W → W × ℕ
  -- `StatusCode::is_success` and its `Display`, and the decoder of a login's answer.
  pub is_success : ℕ → Bool
  pub status_text : ℕ → Str
  pub parse_ticket : Str → Result Ticket Str
