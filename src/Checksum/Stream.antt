-- ===== src/Checksum/Stream.antt =====
-- SHA-1 over a reader and over a slice (src/checksum.rs).
use mathlib.Core.Path.{subst}
use zsync_rs.Prelude.{
  ℕ, zero, suc, ◌+◌, ◌-◌, ◌≤◌, ◌<◌, ◌≡◌, ◌⊎◌, refl, sym, ap, ap₂, ◌∙◌, arith, inl, inr, [], ◌∷◌,
  ◌++◌, length, take, drop, Option, none, some, length-append, length-drop, length-take, drop-drop,
}
use zsync_rs.Control.{Bytes}
use zsync_rs.Checksum.{Hasher, sha1_buffer_size, calc_sha1, hash_loop, calc_sha1_stream}

-- The reader gives exactly `content` to reads of a buffer's length, and then ends.
pub data Yields {R : Type 0} (read : R → ℕ → R × Option Bytes) : R → Bytes → Type 0 where
  ends : {r : R} → (read r sha1_buffer_size).1 ≡ some [] → Yields read r []
  gives :
      {r : R} {content : Bytes} (byte : ℕ) (bytes rest : Bytes)
      → (read r sha1_buffer_size).1 ≡ some (byte ∷ bytes)
      → content ≡ (byte ∷ bytes) ++ rest
      → Yields read (read r sha1_buffer_size).0 rest
      → Yields read r content

-- The reader gives some bytes, and then an error.
pub data Breaks {R : Type 0} (read : R → ℕ → R × Option Bytes) : R → ℕ → Type 0 where
  fails : {r : R} {n : ℕ} → (read r sha1_buffer_size).1 ≡ none → Breaks read r n
  gives :
      {r : R} {n : ℕ} (byte : ℕ) (bytes : Bytes)
      → (read r sha1_buffer_size).1 ≡ some (byte ∷ bytes)
      → Breaks read (read r sha1_buffer_size).0 n
      → Breaks read r (suc n)

module _ (sha1 : Hasher) {R : Type 0} (read : R → ℕ → R × Option Bytes) where
  hash_loop-Yields :
      (rounds : ℕ) (r : R) (hasher : sha1.State) (content : Bytes)
      → Yields read r content
      → length content < rounds
      → (hash_loop sha1 read rounds r hasher).1 ≡ some (sha1.update hasher content)
  unfolding hash_loop
  hash_loop-Yields zero r hasher content y enough = absurd (omega arith)
  hash_loop-Yields (suc rounds) r hasher content (ends e) enough =
      rw (e, hash_loop) (ap some (sym (sha1.update-nil hasher)))
  hash_loop-Yields (suc rounds) r hasher content (gives byte bytes rest e parts y) enough =
      rw (e, hash_loop)
        (hash_loop-Yields rounds (read r sha1_buffer_size).0 (sha1.update hasher (byte ∷ bytes))
            rest y (omega (arith, enough, ap length parts, length-append (byte ∷ bytes) rest))
          ∙ ap some
              (sha1.update-append hasher (byte ∷ bytes) rest ∙ ap (sha1.update hasher) (sym parts)))

  hash_loop-Breaks :
      (rounds : ℕ) (r : R) (hasher : sha1.State) (n : ℕ)
      → Breaks read r n
      → (hash_loop sha1 read rounds r hasher).1 ≡ none
  unfolding hash_loop
  hash_loop-Breaks zero r hasher n b = refl
  hash_loop-Breaks (suc rounds) r hasher n (fails e) = rw (e, hash_loop) refl
  hash_loop-Breaks (suc rounds) r hasher n (gives {n = k} byte bytes e b) =
      rw (e, hash_loop)
        (hash_loop-Breaks rounds (read r sha1_buffer_size).0 (sha1.update hasher (byte ∷ bytes)) k
          b)

  -- Where a reader gives its content in any pieces and then ends, the digest of the stream is that of
  -- the whole content, with more rounds than the content has bytes; and where it breaks off with an
  -- error, there is no digest.
  pub calc_sha1_stream-calc_sha1 :
      (rounds : ℕ) (r : R)
      → ((content : Bytes)
          → Yields read r content
          → length content < rounds
          → (calc_sha1_stream sha1 read rounds r).1 ≡ some (calc_sha1 sha1 content))
        × ((n : ℕ) → Breaks read r n → (calc_sha1_stream sha1 read rounds r).1 ≡ none)
  unfolding calc_sha1_stream calc_sha1
  calc_sha1_stream-calc_sha1 rounds r = (
    λ content y enough.
        rw (hash_loop-Yields rounds r sha1.new content y enough, calc_sha1_stream) refl,
    λ n b. rw (hash_loop-Breaks rounds r sha1.new n b, calc_sha1_stream) refl,
  )

-- A file in memory, read from an offset.
pub file_read : Bytes × ℕ → ℕ → (Bytes × ℕ) × Option Bytes
file_read (content, offset) len =
    let bytes = take len (drop offset content) in ((content, offset + length bytes), some bytes)

take-drop-length : (n : ℕ) (xs : Bytes) → take n xs ++ drop (length (take n xs)) xs ≡ xs
take-drop-length zero xs = refl
take-drop-length (suc n) [] = refl
take-drop-length (suc n) (x ∷ xs) = ap (λ t. x ∷ t) (take-drop-length n xs)

List-cases : (xs : Bytes) → (xs ≡ []) ⊎ ((x : ℕ) × (rest : Bytes) × (xs ≡ x ∷ rest))
List-cases [] = inl refl
List-cases (x ∷ xs) = inr (x, xs, refl)

more-lt :
    (content : Bytes) (offset byte : ℕ) (rest : Bytes)
    → drop offset content ≡ byte ∷ rest
    → offset < length content
more-lt content offset byte rest more = omega (arith, ap length more, length-drop offset content)

file-Yields :
    (left : ℕ) (content : Bytes) (offset : ℕ)
    → length content ≤ offset + left
    → Yields file_read (content, offset) (drop offset content)
unfolding file_read
file-Yields zero content offset short = elim (List-cases (drop offset content)) [
  | inl at_end ↦
      subst (Yields file_read (content, offset)) (sym at_end)
        (ends (ap (λ xs. some (take sha1_buffer_size xs)) at_end))
  | inr (byte, rest, more) ↦ absurd (omega (arith, short, more-lt content offset byte rest more))
]
file-Yields (suc left) content offset short = elim (List-cases (drop offset content)) [
  | inl at_end ↦
      subst (Yields file_read (content, offset)) (sym at_end)
        (ends (ap (λ xs. some (take sha1_buffer_size xs)) at_end))
  | inr (byte, rest, more) ↦
      gives byte (take (sha1_buffer_size - 1) rest) (drop (offset + length bytes) content)
        (ap (λ xs. some (take sha1_buffer_size xs)) more)
        (sym (take-drop-length sha1_buffer_size (drop offset content))
          ∙ ap₂ ◌++◌ (ap (take sha1_buffer_size) more) (drop-drop offset (length bytes) content))
        (file-Yields left content (offset + length bytes) (
          omega (
            arith,
            short,
            length-take sha1_buffer_size (drop offset content),
            length-drop offset content,
            more-lt content offset byte rest more,
          )))
]
  where
    bytes : Bytes
    bytes = take sha1_buffer_size (drop offset content)

-- The digest of a file that is read from its start, as `complete` reads it, is that of its bytes.
pub calc_sha1_stream_file :
    (sha1 : Hasher) (content : Bytes)
    → (calc_sha1_stream sha1 file_read (suc (length content)) (content, 0)).1
      ≡ some (calc_sha1 sha1 content)
calc_sha1_stream_file sha1 content =
    (calc_sha1_stream-calc_sha1 sha1 file_read (suc (length content)) (content, 0)).0 content
      (file-Yields (length content) content 0 (omega arith)) (omega arith)
