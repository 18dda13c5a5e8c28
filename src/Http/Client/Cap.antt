-- ===== src/Http/Client/Cap.antt =====
-- The cap of `HttpRangeReader` in src/http.rs.
use zsync_rs.Prelude.{ℕ, ◌+◌, ◌≤◌, ◌≡◌, refl, inl, inr, arith, List, [], ◌∷◌, ◌++◌, min}
use zsync_rs.Prelude.{length, length-append, ◌==◌, Bool-cases, Option-cases, Option, none, some}
use zsync_rs.Control.{Bytes}
use zsync_rs.Http.Client.{HttpRangeReader, count_read, read_body, range_read}

module _ {R : Type 0} (read_inner : R → ℕ → R × Option Bytes) where
  -- The contract of `Read::read`: it fills at most the buffer.
  abbrev pub FillsBuffer : Type 0
  FillsBuffer =
      (r : R) (len : ℕ) (bytes : Bytes) → (read_inner r len).1 ≡ some bytes → length bytes ≤ len

  -- All bytes of a row of reads with buffers of the given lengths, up to the first error.
  unfoldable pub read_all : HttpRangeReader R → List ℕ → Bytes
  read_all r [] = []
  read_all r (len ∷ lens) =
      let got = range_read read_inner r len in
      elim got.1 [ none ↦ [] | some bytes ↦ bytes ++ read_all got.0 lens ]

  count_read-remaining :
      (remaining len : ℕ) (got : R × Option Bytes) (bytes : Bytes)
      → ((bs : Bytes) → got.1 ≡ some bs → length bs ≤ min len remaining)
      → (count_read read_inner remaining got).1 ≡ some bytes
      → length bytes + (count_read read_inner remaining got).0.remaining ≤ remaining
  unfolding count_read
  count_read-remaining remaining len (body, none) bytes fits h = cc
  count_read-remaining remaining len (body, some bs) bytes fits h = ground (arith, fits bs refl)

  read_body-remaining :
      (fills : FillsBuffer) (remaining : ℕ) (reader : Option R) (len : ℕ) (bytes : Bytes)
      → (read_body read_inner remaining reader len).1 ≡ some bytes
      → length bytes + (read_body read_inner remaining reader len).0.remaining ≤ remaining
  unfolding read_body
  read_body-remaining fills remaining none len bytes h = ground arith
  read_body-remaining fills remaining (some body) len bytes h =
      count_read-remaining remaining len (read_inner body (min len remaining)) bytes
        (fills body (min len remaining)) h

  -- One read takes what it returns off the rest.
  pub range_read-remaining :
      (fills : FillsBuffer) (r : HttpRangeReader R) (len : ℕ) (bytes : Bytes)
      → (range_read read_inner r len).1 ≡ some bytes
      → length bytes + (range_read read_inner r len).0.remaining ≤ r.remaining
  unfolding range_read
  range_read-remaining fills r len bytes h = elim (Bool-cases (r.remaining == 0)) [
    | inl done ↦ ground arith
    | inr more ↦ ground (arith, read_body-remaining fills r.remaining r.reader len bytes)
  ]

  -- If a read of the body fills at most its buffer, then however the reads go and whatever the
  -- server sends, a range reader hands out no more bytes than were asked for.
  pub read_all-le :
      (fills : FillsBuffer) (r : HttpRangeReader R) (lens : List ℕ)
      → length (read_all r lens) ≤ r.remaining
  unfolding read_all
  read_all-le fills r [] = omega arith
  read_all-le fills r (len ∷ lens) = elim (Option-cases (range_read read_inner r len).1) [
    | inl e ↦ rw (e, read_all) (omega arith)
    | inr (bytes, e) ↦
        rw (e, read_all)
          (omega (
            arith,
            length-append bytes (read_all (range_read read_inner r len).0 lens),
            read_all-le fills (range_read read_inner r len).0 lens,
            range_read-remaining fills r len bytes e,
          ))
  ]
