-- ===== src/Http.antt =====
-- src/http.rs: errors, the capped reader of a range, the client with its remembered redirect
-- (Client), and the planning of range requests (Ranges).
mod Tests
pub mod Ranges
pub mod Client
pub mod Fetch
use zsync_rs.Prelude.{ℕ, Bool, true, false, ◌||◌, ◌==◌}
use zsync_rs.Control.{Bytes, ParseError}

-- The cases of `ureq::Error` that `is_transient` tells apart.
pub data RequestError : Type 0 where
  io timeout host_not_found connection_failed other : RequestError

pub data HttpError : Type 0 where
  request : RequestError → HttpError
  status : ℕ → HttpError
  range_ignored : HttpError
  invalid_control : ParseError → HttpError
  io : HttpError
  invalid_url : Bytes → HttpError
  no_urls : HttpError

is_transient_request : RequestError → Bool
is_transient_request RequestError.other = false
is_transient_request _ = true

unfoldable pub is_transient : HttpError → Bool
unfolding is_transient_request
is_transient (HttpError.request e) = is_transient_request e
is_transient (HttpError.status s) =
    s == 408 || s == 429 || s == 500 || s == 502 || s == 503 || s == 504
is_transient HttpError.io = true
is_transient _ = false
