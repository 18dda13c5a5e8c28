-- ===== src/Http/Client/Redirect.antt =====
-- What `fetch_range_reader` of src/http.rs accepts, and what it remembers.
use zsync_rs.Prelude.{bytes_eq, bytes_eq-eq}
use zsync_rs.Prelude.{ℕ, ◌+◌, ◌-◌, ◌^◌, ◌≡◌, refl, ap, ◌∙◌, ◌⊎◌, inl, inr, arith, min}
use zsync_rs.Prelude.{Bool-cases, Option, none, some}
use zsync_rs.Control.{Bytes}
use zsync_rs.Http.{HttpError}
use zsync_rs.Http.Client.{
  Result, Answer, HttpRangeReader, HttpClient, check_answer, open_range, target_for, remember,
  fetch_from, fetch_original, after_target, fetch_range_reader,
}

module _ {W R : Type 0} (call : W → Bytes → ℕ → ℕ → W × Answer R) where
  -- A reader over an answer to a request for the range, with a status that carries its bytes, and
  -- capped at the length of the range.
  pub record IsServed (url : Bytes) (start end : ℕ) (rd : HttpRangeReader R) : Type 0 where
    pub before : W
    pub final_url : Bytes
    pub status : ℕ
    pub body : R
    pub answered : (call before url start end).1 ≡ Answer.response final_url status body
    pub carries : (status ≡ 206) ⊎ ((status ≡ 200) × (start ≡ 0))
    pub over_body : rd.reader ≡ some body
    pub capped : rd.remaining ≡ min (end - start + 1) (2 ^ 64 - 1)

  check_answer-IsServed :
      (url : Bytes) (start end : ℕ) (w : W) (answer : Answer R) (rd : HttpRangeReader R)
      (final : Bytes)
      → (call w url start end).1 ≡ answer
      → check_answer call start end answer ≡ Result.ok (rd, final)
      → IsServed url start end rd
  unfolding check_answer
  check_answer-IsServed url start end w (Answer.failed e) rd final asked h = cc
  check_answer-IsServed url start end w (Answer.error_status s) rd final asked h = cc
  check_answer-IsServed url start end w (Answer.response to status body) rd final asked h = record {
    before = w;
    final_url = to;
    status = status;
    body = body;
    answered = asked;
    carries = ground arith;
    over_body = ground arith;
    capped = ground arith;
  }

  remember-ok :
      (client : HttpClient) (url : Bytes) (w : W) (r : Result (HttpRangeReader R × Bytes))
      (rd : HttpRangeReader R)
      → (remember call client url w r).2 ≡ Result.ok rd
      → (final : Bytes) × (r ≡ Result.ok (rd, final))
  unfolding remember
  remember-ok client url w (Result.err e) rd h = cc
  remember-ok client url w (Result.ok (reader, final)) rd h = (final, ground arith)

  fetch_original-IsServed :
      (client : HttpClient) (url : Bytes) (start end : ℕ) (w : W) (rd : HttpRangeReader R)
      → (fetch_original call client url start end w).2 ≡ Result.ok rd
      → IsServed url start end rd
  unfolding fetch_original open_range
  fetch_original-IsServed client url start end w rd h =
      let (final, e) = remember-ok client url _ _ rd h in
      check_answer-IsServed url start end w (call w url start end).1 rd final refl e

  after_target-IsServed :
      (client : HttpClient) (url target : Bytes) (start end : ℕ) (w w' : W)
      (r : Result (HttpRangeReader R × Bytes)) (rd : HttpRangeReader R)
      → (open_range call target start end w).1 ≡ r
      → (after_target call client url start end w' r).2 ≡ Result.ok rd
      → IsServed url start end rd ⊎ IsServed target start end rd
  unfolding after_target open_range
  after_target-IsServed client url target start end w w' (Result.ok (reader, final)) rd e h = inr (
      check_answer-IsServed target start end w (call w target start end).1 rd final refl
        (e ∙ ap (λ r. Result.ok (r, final)) (ok_injective h)))
    where
      ok_injective : {r r' : HttpRangeReader R} → Result.ok r ≡ Result.ok r' → r ≡ r'
      ok_injective q = cc
  after_target-IsServed client url target start end w w' (Result.err (HttpError.status s)) rd e h =
      inl (fetch_original-IsServed client url start end w' rd h)
  after_target-IsServed client url target start end w w' (Result.err other) rd e h = cc

  fetch_from-IsServed :
      (client : HttpClient) (url : Bytes) (start end : ℕ) (w : W) (target : Option Bytes)
      (rd : HttpRangeReader R)
      → (fetch_from call client url start end w target).2 ≡ Result.ok rd
      → IsServed url start end rd ⊎ ((to : Bytes) × (target ≡ some to) × IsServed to start end rd)
  unfolding fetch_from
  fetch_from-IsServed client url start end w none rd h =
      inl (fetch_original-IsServed client url start end w rd h)
  fetch_from-IsServed client url start end w (some to) rd h =
      elim (after_target-IsServed client url to start end w _ _ rd refl h) [
        | inl served ↦ inl served
        | inr served ↦ inr (to, refl, served)
      ]

  -- A reader that `fetch_range_reader` returns is over the body of an answer for the very range, by
  -- `url` or by the target remembered for it; the status was 206, or 200 for a range from zero; and
  -- the reader is capped at the length of the range.
  pub fetch_range_reader-IsServed :
      (client : HttpClient) (url : Bytes) (start end : ℕ) (w : W) (rd : HttpRangeReader R)
      → (fetch_range_reader call client url start end w).2 ≡ Result.ok rd
      → IsServed url start end rd
        ⊎ ((to : Bytes) × (client.redirect ≡ some (url, to)) × IsServed to start end rd)
  unfolding fetch_range_reader
  fetch_range_reader-IsServed client url start end w rd h =
      elim (fetch_from-IsServed client url start end w (target_for call client url) rd h) [
        | inl served ↦ inl served
        | inr (to, e, served) ↦ inr (to, target_for-redirect client.redirect url to e, served)
      ]
    where
      target_for-redirect :
          (redirect : Option (Bytes × Bytes)) (from to : Bytes)
          → target_for call (record { redirect = redirect }) from ≡ some to
          → redirect ≡ some (from, to)
      target_for-redirect none from to e = cc
      target_for-redirect (some (f, t)) from to e = elim (Bool-cases (bytes_eq f from)) [
        | inl same ↦ ground (arith, bytes_eq-eq f from same)
        | inr other ↦ ground arith
      ]
