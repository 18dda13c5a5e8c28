-- ===== src/Http/Fetch.antt =====
-- `HttpClient::new`, `fetch_control_file`, `fetch_range` and `fetch_ranges` of src/http.rs. The agent
-- is ureq's, and a parameter: `get` is a request without a range, whose body arrives whole.
pub mod Bodies
pub mod Parsed
use zsync_rs.Prelude.{ℕ, zero, suc, ◌+◌, ◌*◌, ◌/◌, List, [], ◌∷◌, ◌++◌, Option, none, some}
use zsync_rs.Control.{Bytes, ControlFile, ParseError}
use zsync_rs.Control.Header
use zsync_rs.Control.Header.{parse}
use zsync_rs.Http.{HttpError, RequestError}
use zsync_rs.Http.Client.{
  Answer, Result, HttpClient, HttpRangeReader, fetch_range_reader, range_read,
}
use zsync_rs.Http.Ranges.{ByteRanges}

-- A client that has seen no redirect.
abbrev pub new_client : HttpClient
new_client = record { redirect = none }

-- `ureq::Error`, as its conversion into an `HttpError` tells its cases apart.
pub data UreqError : Type 0 where
  status_code : ℕ → UreqError
  other : RequestError → UreqError

unfoldable pub from_ureq : UreqError → HttpError
from_ureq (UreqError.status_code status) = HttpError.status status
from_ureq (UreqError.other e) = HttpError.request e

-- What `agent.get(url).call()` comes to.
pub data Reply : Type 0 where
  failed : UreqError → Reply
  body : Bytes → Reply

-- What an answer is worth as a control file.
parsed : Header.Result ControlFile → Result ControlFile
parsed (Header.Result.ok control) = Result.ok control
parsed (Header.Result.err e) = Result.err (HttpError.invalid_control e)

read_reply : Reply → Result ControlFile
unfolding parsed
read_reply (Reply.failed e) = Result.err (from_ureq e)
read_reply (Reply.body bytes) = parsed (parse bytes)

module _ {W : Type 0} (get : W → Bytes → W × Reply) where
  unfoldable pub fetch_control_file : Bytes → W → W × Result ControlFile
  unfolding read_reply
  fetch_control_file url w = let (w', reply) = get w url in (w', read_reply reply)

-- `read_to_end` of the standard library over a range reader. It reads into buffers of lengths of its
-- own choice, the parameter `sizes`; `none` is an error of a read. Each read but the last gives a
-- byte of the range, so its length, and one more, bound the rounds.
module _ {R : Type 0} (read_inner : R → ℕ → R × Option Bytes) (sizes : ℕ → ℕ) where
  unfoldable pub read_rounds : ℕ → ℕ → HttpRangeReader R → Option Bytes
  read_rounds zero round reader = some []
  read_rounds (suc rounds) round reader =
      let got = range_read read_inner reader (sizes round) in
      let rest = read_rounds rounds (round + 1) got.0 in
      elim got.1 [
        | none ↦ none
        | some [] ↦ some []
        | some (byte ∷ bytes) ↦ elim rest [ none ↦ none | some more ↦ some (byte ∷ bytes ++ more) ]
      ]

  unfoldable pub read_to_end : HttpRangeReader R → Option Bytes
  unfolding read_rounds
  read_to_end reader = read_rounds (suc reader.remaining) 0 reader

  read_opened : Result (HttpRangeReader R) → Result Bytes
  unfolding read_to_end
  read_opened (Result.err e) = Result.err e
  read_opened (Result.ok reader) = elim (read_to_end reader) [
    | none ↦ Result.err HttpError.io
    | some bytes ↦ Result.ok bytes
  ]

  module _ {W : Type 0} (call : W → Bytes → ℕ → ℕ → W × Answer R) where
    unfoldable pub fetch_range : HttpClient → Bytes → ℕ → ℕ → W → W × HttpClient × Result Bytes
    unfolding read_opened
    fetch_range client url start end w =
        let (w', client', opened) = fetch_range_reader call client url start end w in
        (w', client', read_opened opened)

    -- The loop, with the results so far at the end of it put in front.
    unfoldable pub fetch_ranges :
        HttpClient → Bytes → ByteRanges → ℕ → W → W × HttpClient × Result (List (ℕ × Bytes))
    unfolding fetch_range
    fetch_ranges client url [] blocksize w = (w, client, Result.ok [])
    fetch_ranges client url ((start, end) ∷ ranges) blocksize w =
        let fetched = fetch_range client url start end w in
        let rest = fetch_ranges fetched.1 url ranges blocksize fetched.0 in
        elim fetched.2 as (λ r. W × HttpClient × Result (List (ℕ × Bytes))) [
          | Result.err e ↦ (fetched.0, fetched.1, Result.err e)
          | Result.ok bytes ↦ (
            rest.0,
            rest.1,
            elim rest.2 [
              | Result.err e ↦ Result.err e
              | Result.ok results ↦ Result.ok ((start / blocksize * blocksize, bytes) ∷ results)
            ],
          )
        ]
