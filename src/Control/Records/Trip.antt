-- ===== src/Control/Records/Trip.antt =====
-- Writing block records and reading them back (src/control.rs).
use mathlib.Core.List.{append_assoc, append-nil}
use zsync_rs.Prelude.{
  ℕ, zero, suc, ◌+◌, ◌-◌, ◌*◌, ◌%◌, ◌^◌, ◌≤◌, ◌<◌, ◌≡◌, refl, ap, ap₂, ◌∙◌, sym, inl, inr, arith,
  List, [], ◌∷◌, ◌++◌, map,
}
use zsync_rs.Prelude.{
  length, take, drop, replicate, ltb, ◌==◌, if◌then◌else◌, false, none, some, All, length-append,
  length-take, length-drop, take-length_append, drop-length_append, Bool-cases,
}
use zsync_rs.Rsum.{Rsum}
use zsync_rs.Control.{Bytes, BlockChecksum, HashLengths}
use zsync_rs.Control.Records.{
  rsum_to_bytes, decode_rsum, decode_block, entry_size, read_block_checksums, write_blocks,
}

-- The lengths that `ControlFile::parse` accepts.
pub record IsAccepted (lengths : HashLengths) : Type 0 where
  pub seq_range : (1 ≤ lengths.seq_matches) × (lengths.seq_matches ≤ 2)
  pub rsum_range : (1 ≤ lengths.rsum_bytes) × (lengths.rsum_bytes ≤ 4)
  pub checksum_range : (3 ≤ lengths.checksum_bytes) × (lengths.checksum_bytes ≤ 16)

-- The sums of a block are 16-bit words, and its digest has 16 bytes.
abbrev pub IsBlock : BlockChecksum → Type 0
IsBlock block = (block.rsum.a < 2 ^ 16) × (block.rsum.b < 2 ^ 16) × (length block.checksum ≡ 16)

-- What a record keeps of a checksum: the low-order bytes of the sums, the front of the digest.
unfoldable pub kept_rsum : ℕ → Rsum → Rsum
kept_rsum rsum_bytes rsum =
    if rsum_bytes == 1
    then record { a = 0; b = rsum.b % 256 }
    else if rsum_bytes == 2
    then record { a = 0; b = rsum.b }
    else if rsum_bytes == 3
    then record { a = rsum.a % 256; b = rsum.b }
    else rsum

unfoldable pub kept : HashLengths → BlockChecksum → BlockChecksum
kept lengths block = record {
  rsum = kept_rsum lengths.rsum_bytes block.rsum;
  checksum =
      take lengths.checksum_bytes block.checksum ++ replicate (16 - lengths.checksum_bytes) 0;
}

length-rsum_to_bytes : (rsum : Rsum) (n : ℕ) → 1 ≤ n → n ≤ 4 → length (rsum_to_bytes rsum n) ≡ n
unfolding rsum_to_bytes
length-rsum_to_bytes rsum n h k = ground arith

pub decode_rsum-rsum_to_bytes :
    (rsum : Rsum) (n : ℕ) (rest : Bytes)
    → rsum.a < 2 ^ 16
    → rsum.b < 2 ^ 16
    → 1 ≤ n
    → n ≤ 4
    → decode_rsum n (rsum_to_bytes rsum n ++ rest) ≡ kept_rsum n rsum
unfolding decode_rsum rsum_to_bytes kept_rsum
decode_rsum-rsum_to_bytes rsum n rest ha hb h k = ground arith

-- The two halves of `xs ++ ys`, cut at the length of `xs`.
take-append {ℓ} : {A : Type ℓ} (n : ℕ) (xs ys : List A) → length xs ≡ n → take n (xs ++ ys) ≡ xs
take-append n xs ys e = ap (λ k. take k (xs ++ ys)) (sym e) ∙ take-length_append xs ys

drop-append {ℓ} : {A : Type ℓ} (n : ℕ) (xs ys : List A) → length xs ≡ n → drop n (xs ++ ys) ≡ ys
drop-append n xs ys e = ap (λ k. drop k (xs ++ ys)) (sym e) ∙ drop-length_append xs ys

take_all {ℓ} : {A : Type ℓ} (n : ℕ) (xs : List A) → length xs ≡ n → take n xs ≡ xs
take_all n xs e = ap (take n) (sym (append-nil xs)) ∙ take-append n xs [] e

module _ (lengths : HashLengths) (accepted : IsAccepted lengths) where
  -- The bytes of one record.
  abbrev entry : BlockChecksum → Bytes
  entry block =
      rsum_to_bytes block.rsum lengths.rsum_bytes ++ take lengths.checksum_bytes block.checksum

  length-digest :
      (block : BlockChecksum)
      → IsBlock block
      → length (take lengths.checksum_bytes block.checksum) ≡ lengths.checksum_bytes
  length-digest block ok =
      omega
        (arith, length-take lengths.checksum_bytes block.checksum, accepted.checksum_range, ok.2)

  length-front :
      (block : BlockChecksum)
      → length (rsum_to_bytes block.rsum lengths.rsum_bytes) ≡ lengths.rsum_bytes
  length-front block =
      length-rsum_to_bytes block.rsum lengths.rsum_bytes accepted.rsum_range.0 accepted.rsum_range.1

  length-entry : (block : BlockChecksum) → IsBlock block → length (entry block) ≡ entry_size lengths
  length-entry block ok = omega (
    arith,
    length-append (rsum_to_bytes block.rsum lengths.rsum_bytes)
        (take lengths.checksum_bytes block.checksum),
    length-front block,
    length-digest block ok,
  )

  decode_block-entry :
      (block : BlockChecksum)
      → IsBlock block
      → decode_block lengths (entry block) ≡ kept lengths block
  unfolding decode_block kept
  decode_block-entry block ok =
      ap₂
        (λ (r : Rsum) (c : Bytes). record {
          rsum = r;
          checksum = c ++ replicate (16 - lengths.checksum_bytes) 0;
        })
        (decode_rsum-rsum_to_bytes block.rsum lengths.rsum_bytes digest ok.0 ok.1
          accepted.rsum_range.0 accepted.rsum_range.1)
        (ap₂ (λ n rest. take n rest) span
            (drop-append lengths.rsum_bytes front digest (length-front block))
          ∙ take_all lengths.checksum_bytes digest (length-digest block ok))
    where
      front : Bytes
      front = rsum_to_bytes block.rsum lengths.rsum_bytes

      digest : Bytes
      digest = take lengths.checksum_bytes block.checksum

      span :
          lengths.rsum_bytes + lengths.checksum_bytes - lengths.rsum_bytes ≡ lengths.checksum_bytes
      span = omega arith

  read-cons :
      (n : ℕ) (e tail : Bytes) {blocks : List BlockChecksum}
      → length e ≡ entry_size lengths
      → read_block_checksums lengths n tail ≡ some blocks
      → read_block_checksums lengths (suc n) (e ++ tail) ≡ some (decode_block lengths e ∷ blocks)
  unfolding read_block_checksums
  read-cons n e tail size h = rw (
    enough,
    drop-append (entry_size lengths) e tail size,
    h,
    take-append (entry_size lengths) e tail size,
  )
    where
      enough : ltb (length (e ++ tail)) (entry_size lengths) ≡ false
      enough = ground (arith, length-append e tail, size)

  -- With hash lengths that `parse` accepts, and blocks of two 16-bit sums and a digest of 16 bytes:
  -- reading as many records as were written gives the blocks back, each cut down to what its record
  -- keeps, and whatever follows the records is not looked at.
  pub read_block_checksums-write_blocks :
      (blocks : List BlockChecksum) (rest : Bytes)
      → All IsBlock blocks
      → read_block_checksums lengths (length blocks) (write_blocks lengths blocks ++ rest)
        ≡ some (map (kept lengths) blocks)
  unfolding read_block_checksums write_blocks
  read_block_checksums-write_blocks [] rest ok = refl
  read_block_checksums-write_blocks (block ∷ blocks) rest ok =
      ap (read_block_checksums lengths (suc (length blocks))) regroup
      ∙ read-cons (length blocks) (entry block) (write_blocks lengths blocks ++ rest)
          (length-entry block ok.0) (read_block_checksums-write_blocks blocks rest ok.1)
      ∙ ap (λ b. some (b ∷ map (kept lengths) blocks)) (decode_block-entry block ok.0)
    where
      regroup :
          write_blocks lengths (block ∷ blocks) ++ rest
          ≡ entry block ++ (write_blocks lengths blocks ++ rest)
      regroup = simp append_assoc

  -- With hash lengths that `parse` accepts, an input that ends before its last record is refused.
  pub read_block_checksums_short :
      (num_blocks : ℕ) (reader : Bytes)
      → length reader < num_blocks * entry_size lengths
      → read_block_checksums lengths num_blocks reader ≡ none
  unfolding read_block_checksums
  read_block_checksums_short zero reader h = absurd (omega arith)
  read_block_checksums_short (suc n) reader h =
      elim (Bool-cases (ltb (length reader) (entry_size lengths))) [
        | inl early ↦ rw early
        | inr enough ↦ rw (
          enough,
          read_block_checksums_short n (drop (entry_size lengths) reader)
              (ground (arith, length-drop (entry_size lengths) reader)),
        )
      ]
