-- ===== src/Http/Client.antt =====
-- `HttpRangeReader` and `HttpClient` of src/http.rs. The agent and the bodies of its responses are
-- ureq's: they are parameters, with a state that the server and the network may change.
pub mod Cap
pub mod Redirect
use zsync_rs.Prelude.{bytes_eq}
use zsync_rs.Prelude.{◌≡◌, refl, ◌⊎◌, inl, inr}
use zsync_rs.Prelude.{ℕ, ◌+◌, ◌-◌, ◌^◌, min, Bool, true, false, not, List, [], ◌∷◌, ◌++◌}
use zsync_rs.Prelude.{length, ltb, ◌==◌, if◌then◌else◌, ◌&&◌, Option, none, some}
use zsync_rs.Control.{Bytes}
use zsync_rs.Http.{HttpError, RequestError}

pub data Result {ℓ} (A : Type ℓ) : Type ℓ where
  ok : A → Result A
  err : HttpError → Result A

pub Result-cases {ℓ} :
    {A : Type ℓ} (r : Result A)
    → ((e : HttpError) × (r ≡ Result.err e)) ⊎ ((a : A) × (r ≡ Result.ok a))
Result-cases (Result.err e) = inl (e, refl)
Result-cases (Result.ok a) = inr (a, refl)

-- What `agent.get(url).header("Range", …).call()` comes to.
pub data Answer (R : Type 0) : Type 0 where
  failed : RequestError → Answer R
  error_status : ℕ → Answer R
  response : Bytes → ℕ → R → Answer R

-- `none` stands for `std::io::empty()`.
pub record HttpRangeReader (R : Type 0) : Type 0 where
  pub reader : Option R
  pub remaining : ℕ

-- The agent is left out: it is the parameter `call`.
pub record HttpClient : Type 0 where
  pub redirect : Option (Bytes × Bytes)

-- One read from a body into a buffer of the given length; `none` is an error.
module _ {R : Type 0} (read_inner : R → ℕ → R × Option Bytes) where
  -- What a read leaves of the reader, and the bytes it gave.
  count_read : ℕ → R × Option Bytes → HttpRangeReader R × Option Bytes
  count_read remaining (body, none) = (record { reader = some body; remaining = remaining }, none)
  count_read remaining (body, some bytes) =
      (record { reader = some body; remaining = remaining - length bytes }, some bytes)

  read_body : ℕ → Option R → ℕ → HttpRangeReader R × Option Bytes
  read_body remaining none len = (record { reader = none; remaining = remaining }, some [])
  read_body remaining (some body) len = count_read remaining (read_inner body (min len remaining))

  -- The answer `some []` is the end of the body. At a cap of 0 the code reads once more, to let the
  -- agent see the end, and drops both the result and the body; here only the body is dropped.
  unfoldable pub range_read : HttpRangeReader R → ℕ → HttpRangeReader R × Option Bytes
  unfolding count_read read_body
  range_read r len =
      if r.remaining == 0
      then (record { reader = none; remaining = 0 }, some [])
      else read_body r.remaining r.reader len

module _ {W R : Type 0} (call : W → Bytes → ℕ → ℕ → W × Answer R) where
  -- What the answer to a range request is worth.
  check_answer : ℕ → ℕ → Answer R → Result (HttpRangeReader R × Bytes)
  check_answer start end (Answer.failed e) = Result.err (HttpError.request e)
  check_answer start end (Answer.error_status s) = Result.err (HttpError.status s)
  check_answer start end (Answer.response final_url status body) =
      let requested = min (end - start + 1) (2 ^ 64 - 1) in
      if status == 200 && ltb 0 start
      then Result.err HttpError.range_ignored
      else if not (status == 206) && not (status == 200)
      then Result.err (HttpError.status status)
      else Result.ok (record { reader = some body; remaining = requested }, final_url)

  unfoldable pub open_range : Bytes → ℕ → ℕ → W → W × Result (HttpRangeReader R × Bytes)
  unfolding check_answer
  open_range url start end w =
      let answered = call w url start end in (answered.0, check_answer start end answered.1)

  -- The target remembered for `url`.
  target_for : HttpClient → Bytes → Option Bytes
  target_for client url = elim client.redirect [
    | none ↦ none
    | some (from, to) ↦ if bytes_eq from url then some to else none
  ]

  -- The remembered redirect after the answer to a request to `url`.
  remember :
      HttpClient
      → Bytes
      → W
      → Result (HttpRangeReader R × Bytes)
      → W × HttpClient × Result (HttpRangeReader R)
  remember client url w (Result.err e) = (w, client, Result.err e)
  remember client url w (Result.ok (reader, final_url)) =
      let redirect = if bytes_eq final_url url then none else some (url, final_url) in
      (w, record { redirect = redirect }, Result.ok reader)

  -- The request to `url` itself.
  fetch_original : HttpClient → Bytes → ℕ → ℕ → W → W × HttpClient × Result (HttpRangeReader R)
  fetch_original client url start end w =
      let opened = open_range url start end w in remember client url opened.0 opened.1

  -- The result of the request to the remembered target: an error status falls back.
  after_target :
      HttpClient
      → Bytes
      → ℕ
      → ℕ
      → W
      → Result (HttpRangeReader R × Bytes)
      → W × HttpClient × Result (HttpRangeReader R)
  after_target client url start end w (Result.ok (reader, final_url)) =
      (w, client, Result.ok reader)
  after_target client url start end w (Result.err (HttpError.status s)) =
      fetch_original client url start end w
  after_target client url start end w (Result.err e) = (w, client, Result.err e)

  -- The request, with the target to try first if there is one.
  fetch_from :
      HttpClient → Bytes → ℕ → ℕ → W → Option Bytes → W × HttpClient × Result (HttpRangeReader R)
  fetch_from client url start end w none = fetch_original client url start end w
  fetch_from client url start end w (some target) =
      let opened = open_range target start end w in
      after_target client url start end opened.0 opened.1

  unfoldable pub fetch_range_reader :
      HttpClient → Bytes → ℕ → ℕ → W → W × HttpClient × Result (HttpRangeReader R)
  unfolding target_for remember fetch_original after_target fetch_from
  fetch_range_reader client url start end w =
      fetch_from client url start end w (target_for client url)
