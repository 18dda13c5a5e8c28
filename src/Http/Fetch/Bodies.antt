-- ===== src/Http/Fetch/Bodies.antt =====
-- What `fetch_ranges` of src/http.rs returns.
use zsync_rs.Prelude.{
  ℕ, zero, suc, ◌+◌, ◌-◌, ◌*◌, ◌/◌, ◌≤◌, ◌<◌, ◌≡◌, refl, ap, inl, inr, arith, List, [], ◌∷◌, ◌++◌,
  length, length-append, Option, none, some, Option-cases,
}
use zsync_rs.Control.{Bytes}
use zsync_rs.Http.Client.{
  Answer, Result, HttpClient, HttpRangeReader, fetch_range_reader, range_read,
}
use zsync_rs.Http.Client.{Result-cases}
use zsync_rs.Http.Client.Cap.{FillsBuffer, range_read-remaining}
use zsync_rs.Http.Client.Redirect.{fetch_range_reader-IsServed}
use zsync_rs.Http.Ranges.{ByteRanges}
use zsync_rs.Http.Fetch.{read_rounds, read_to_end, read_opened, fetch_range, fetch_ranges}

-- One body for each range, in order: at the start of the range rounded down to a block, and no
-- longer than the range.
unfoldable pub AreBodies : ℕ → ByteRanges → List (ℕ × Bytes) → Type 0
AreBodies blocksize [] [] = Unit
AreBodies blocksize ((start, end) ∷ ranges) ((offset, bytes) ∷ results) =
    (offset ≡ start / blocksize * blocksize)
    × (length bytes ≤ end - start + 1)
    × AreBodies blocksize ranges results
AreBodies blocksize [] (result ∷ results) = ⊥
AreBodies blocksize (range ∷ ranges) [] = ⊥

module _ {R : Type 0} (read_inner : R → ℕ → R × Option Bytes) (fills : FillsBuffer read_inner)
    (sizes : ℕ → ℕ) where
  read_rounds-le :
      (rounds round : ℕ) (reader : HttpRangeReader R) (bytes : Bytes)
      → read_rounds read_inner sizes rounds round reader ≡ some bytes
      → length bytes ≤ reader.remaining
  unfolding read_rounds
  read_rounds-le zero round reader bytes h = ground arith
  read_rounds-le (suc rounds) round reader bytes h =
      elim (Option-cases (range_read read_inner reader (sizes round)).1) [
        | inl e ↦ cc (rw (e, read_rounds) at h)
        | inr ([], e) ↦ let h' : some [] ≡ some bytes = rw (e, read_rounds) at h in ground arith
        | inr (byte ∷ first, e) ↦ elim (Option-cases after) [
          | inl failed ↦ cc (rw (e, failed, read_rounds) at h)
          | inr (more, e') ↦
              let h' : some (byte ∷ first ++ more) ≡ some bytes = rw (e, e', read_rounds) at h in
              let same : byte ∷ first ++ more ≡ bytes = cc h' in
              omega (
                arith,
                ap length same,
                length-append (byte ∷ first) more,
                range_read-remaining read_inner fills reader (sizes round) (byte ∷ first) e,
                read_rounds-le rounds (round + 1) (range_read read_inner reader (sizes round)).0
                    more e',
              )
        ]
      ]
    where
      after : Option Bytes
      after =
          read_rounds read_inner sizes rounds (round + 1)
            (range_read read_inner reader (sizes round)).0

  -- With more rounds than the range has bytes, the number of rounds does not matter.
  pub read_rounds_enough :
      (rounds rounds' round : ℕ) (reader : HttpRangeReader R)
      → reader.remaining < rounds
      → reader.remaining < rounds'
      → read_rounds read_inner sizes rounds round reader
        ≡ read_rounds read_inner sizes rounds' round reader
  unfolding read_rounds
  read_rounds_enough zero rounds' round reader h h' = absurd (omega arith)
  read_rounds_enough (suc rounds) zero round reader h h' = absurd (omega arith)
  read_rounds_enough (suc rounds) (suc rounds') round reader h h' =
      elim (Option-cases (range_read read_inner reader (sizes round)).1) [
        | inl e ↦ rw (e, read_rounds) refl
        | inr ([], e) ↦ rw (e, read_rounds) refl
        | inr (byte ∷ first, e) ↦
            let left : suc (length first) + (range_read read_inner reader (sizes round)).0.remaining
                ≤ reader.remaining =
              range_read-remaining read_inner fills reader (sizes round) (byte ∷ first) e in
            rw (e, read_rounds)
              (ap (joined (byte ∷ first)) (
                read_rounds_enough rounds rounds' (round + 1)
                  (range_read read_inner reader (sizes round)).0 (omega arith) (omega arith)))
      ]
    where
      joined : Bytes → Option Bytes → Option Bytes
      joined first rest = elim rest [ none ↦ none | some more ↦ some (first ++ more) ]

  read_opened-le :
      (opened : Result (HttpRangeReader R)) (requested : ℕ) (bytes : Bytes)
      → ((reader : HttpRangeReader R) → opened ≡ Result.ok reader → reader.remaining ≤ requested)
      → read_opened read_inner sizes opened ≡ Result.ok bytes
      → length bytes ≤ requested
  unfolding read_opened
  read_opened-le (Result.err e) requested bytes capped h = cc h
  read_opened-le (Result.ok reader) requested bytes capped h =
      elim (Option-cases (read_to_end read_inner sizes reader)) [
        | inl e ↦ cc (rw (e, read_opened) at h)
        | inr (got, e) ↦
            let h' : Result.ok got ≡ Result.ok bytes = rw (e, read_opened) at h in
            let same : got ≡ bytes = cc h' in
            omega (
              arith,
              ap length same,
              capped reader refl,
              read_rounds-le (suc reader.remaining) 0 reader got (unfold read_to_end in e),
            )
      ]

  module _ {W : Type 0} (call : W → Bytes → ℕ → ℕ → W × Answer R) where
    fetch_range-le :
        (client : HttpClient) (url : Bytes) (start end : ℕ) (w : W) (bytes : Bytes)
        → (fetch_range read_inner sizes call client url start end w).2 ≡ Result.ok bytes
        → length bytes ≤ end - start + 1
    unfolding fetch_range
    fetch_range-le client url start end w bytes h =
        read_opened-le (fetch_range_reader call client url start end w).2 (end - start + 1) bytes
          capped h
      where
        capped :
            (reader : HttpRangeReader R)
            → (fetch_range_reader call client url start end w).2 ≡ Result.ok reader
            → reader.remaining ≤ end - start + 1
        capped reader e = elim (fetch_range_reader-IsServed call client url start end w reader e) [
          | inl served ↦ omega (arith, served.capped)
          | inr (to, remembered, served) ↦ omega (arith, served.capped)
        ]

    -- If a read of a body fills at most its buffer: when `fetch_ranges` succeeds, it has one body for
    -- each range, in order, with the start of the range rounded down to a multiple of the block
    -- size, and none is longer than its range, whatever the server sends.
    pub fetch_ranges-AreBodies :
        (client : HttpClient) (url : Bytes) (ranges : ByteRanges) (blocksize : ℕ) (w : W)
        (results : List (ℕ × Bytes))
        → (fetch_ranges read_inner sizes call client url ranges blocksize w).2 ≡ Result.ok results
        → AreBodies blocksize ranges results
    unfolding fetch_ranges AreBodies
    fetch_ranges-AreBodies client url [] blocksize w [] h = tt
    fetch_ranges-AreBodies client url [] blocksize w (result ∷ results) h = cc h
    fetch_ranges-AreBodies client url ((start, end) ∷ ranges) blocksize w results h =
        elim (Result-cases fetched.2) [
          | inl (error, e) ↦ cc (rw (e, fetch_ranges) at h)
          | inr (bytes, e) ↦ elim (Result-cases rest.2) [
            | inl (error, e') ↦ cc (rw (e, e', fetch_ranges) at h)
            | inr (more, e') ↦
                let h' : Result.ok ((start / blocksize * blocksize, bytes) ∷ more)
                    ≡ Result.ok results =
                  rw (e, e', fetch_ranges) at h in
                let same : (start / blocksize * blocksize, bytes) ∷ more ≡ results = cc h' in
                rw (← same) (
                  refl,
                  fetch_range-le client url start end w bytes e,
                  fetch_ranges-AreBodies fetched.1 url ranges blocksize fetched.0 more e',
                )
          ]
        ]
      where
        fetched : W × HttpClient × Result Bytes
        fetched = fetch_range read_inner sizes call client url start end w

        rest : W × HttpClient × Result (List (ℕ × Bytes))
        rest = fetch_ranges read_inner sizes call fetched.1 url ranges blocksize fetched.0
