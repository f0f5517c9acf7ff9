-- ===== src/Error.antt =====
-- src/error.rs: the errors of the handlers, and the answer that each becomes. A response is its
-- status and the text under its key `error`.
use moxui.Prelude.{ℕ, Str, codes, append_str}

pub data AppError : Type 0 where
  not_found bad_request unauthorized forbidden conflict too_many_requests : Str → AppError
  proxmox database config internal : Str → AppError

-- `Display`.
unfoldable pub to_string : AppError → Str
to_string (not_found reason) = append_str (codes "Not found: ") reason
to_string (bad_request reason) = append_str (codes "Bad request: ") reason
to_string (unauthorized reason) = append_str (codes "Unauthorized: ") reason
to_string (forbidden reason) = append_str (codes "Forbidden: ") reason
to_string (conflict reason) = append_str (codes "Conflict: ") reason
to_string (too_many_requests reason) = append_str (codes "Too many requests: ") reason
to_string (proxmox reason) = append_str (codes "Proxmox error: ") reason
to_string (database reason) = append_str (codes "Database error: ") reason
to_string (config reason) = append_str (codes "Configuration error: ") reason
to_string (internal reason) = append_str (codes "Internal error: ") reason

-- `IntoResponse`.
unfoldable pub into_response : AppError → ℕ × Str
unfolding to_string
into_response (not_found reason) = (404, to_string (not_found reason))
into_response (bad_request reason) = (400, to_string (bad_request reason))
into_response (unauthorized reason) = (401, codes "Unauthorized")
into_response (forbidden reason) = (403, codes "Forbidden")
into_response (conflict reason) = (409, to_string (conflict reason))
into_response (too_many_requests reason) = (429, to_string (too_many_requests reason))
into_response other = (500, codes "Internal server error")
