-- ===== src/Http/Ranges/Plan.antt =====
-- The byte ranges that a download requests (src/http.rs), against the blocks that the matcher needs.
use mathlib.Core.Path.{subst, sym}
use native.Mathlib.Nat.{le-div_iff_mul-le, div-lt_iff_lt-mul}
use zsync_rs.Prelude.{
  ℕ, suc, ◌+◌, ◌-◌, ◌*◌, ◌/◌, ◌≤◌, ◌<◌, ◌≡◌, refl, ◌∙◌, arith, Bool, true, false, not, [], ◌∷◌, min,
}
use zsync_rs.Prelude.{length, unset-lt-length, ltb, leb, ◌&&◌, ◌||◌, All}
use zsync_rs.Matcher.{BlockMatcher, is_known_at}
use zsync_rs.Matcher.Ranges.{BlockRanges, needed_block_ranges}
use zsync_rs.Matcher.Ranges.Cover.{
  covers, IsSeparated, needed_block_ranges-covers, needed_block_ranges-IsSeparated,
}
use zsync_rs.Http.Ranges.{ByteRanges, byte_ranges_from_block_ranges, merge_byte_ranges}
use zsync_rs.Http.Ranges.Cover.{holds, in_gap, IsAscending, merge_byte_ranges-holds}

module _ (blocksize file_length : ℕ) (size : 1 ≤ blocksize) (some_bytes : 1 ≤ file_length) where
  rows : (s e : ℕ) → s < e → s * blocksize + blocksize ≤ e * blocksize
  rows s e h = grind arith

  -- A byte lies in the range of its block.
  byte_range-holds :
      (s e k : ℕ)
      → s < e
      → (leb (s * blocksize) k && leb k (min (e * blocksize - 1) (file_length - 1)))
        ≡ ((leb s (k / blocksize) && ltb (k / blocksize) e) && ltb k file_length)
  byte_range-holds s e k h = ground (
    arith,
    le-div_iff_mul-le {k = blocksize} {x = s} {y = k} size,
    div-lt_iff_lt-mul {k = blocksize} {x = k} {y = e} size,
    rows s e h,
  )

  -- Ranges of blocks that exist: the last block begins in the file.
  abbrev pub Exist : BlockRanges → Type 0
  Exist ranges = All (λ (range : ℕ × ℕ). range.1 * blocksize < file_length + blocksize) ranges

  pub byte_ranges-holds :
      (lo : ℕ) (ranges : BlockRanges) (k : ℕ)
      → IsSeparated lo ranges
      → holds (byte_ranges_from_block_ranges ranges blocksize file_length) k
        ≡ (covers ranges (k / blocksize) && ltb k file_length)
  unfolding byte_ranges_from_block_ranges holds covers
  byte_ranges-holds lo [] k sep = refl
  byte_ranges-holds lo ((s, e) ∷ ranges) k sep =
      ground (arith, byte_range-holds s e k sep.1, byte_ranges-holds (suc e) ranges k sep.2)

  pub byte_ranges-IsAscending :
      (lo : ℕ) (ranges : BlockRanges)
      → IsSeparated lo ranges
      → Exist ranges
      → IsAscending (lo * blocksize) (byte_ranges_from_block_ranges ranges blocksize file_length)
  unfolding byte_ranges_from_block_ranges
  byte_ranges-IsAscending lo [] sep ex = tt
  byte_ranges-IsAscending lo ((s, e) ∷ ranges) sep ex =
      let step = rows s e sep.1 in
      (
        columns lo s sep.0,
        omega (arith, step, ex.0),
        IsAscending_weaken (suc e * blocksize) _ _ (omega arith)
            (byte_ranges-IsAscending (suc e) ranges sep.2 ex.1),
      )
    where
      columns : (a b : ℕ) → a ≤ b → a * blocksize ≤ b * blocksize
      columns a b h = grind arith

      IsAscending_weaken :
          (lo lo' : ℕ) (rs : ByteRanges) → lo' ≤ lo → IsAscending lo rs → IsAscending lo' rs
      IsAscending_weaken lo lo' [] h asc = tt
      IsAscending_weaken lo lo' ((s', e') ∷ rs) h asc = (omega arith, asc.1, asc.2)

-- The blocks of the target: the last one begins in the file.
abbrev pub IsSized : BlockMatcher → ℕ → ℕ → Type 0
IsSized m blocksize file_length = length m.known_blocks * blocksize < file_length + blocksize

needed-Exist :
    (m : BlockMatcher) (blocksize file_length lo : ℕ) (ranges : BlockRanges)
    → ((k : ℕ) → covers ranges k ≡ true → k < length m.known_blocks)
    → IsSized m blocksize file_length
    → IsSeparated lo ranges
    → All (λ (range : ℕ × ℕ). range.1 * blocksize < file_length + blocksize) ranges
unfolding covers
needed-Exist m blocksize file_length lo [] inside sized sep = tt
needed-Exist m blocksize file_length lo ((s, e) ∷ ranges) inside sized sep = (
  grind (arith, last),
  needed-Exist m blocksize file_length (suc e) ranges (λ k h. inside k (ground arith)) sized sep.2,
)
  where
    last : e ≤ length m.known_blocks
    last = let below = inside (e - 1) (ground (arith, sep.1)) in omega (arith, below)

known_in_range :
    (m : BlockMatcher) (k : ℕ) → covers (needed_block_ranges m) k ≡ true → k < length m.known_blocks
known_in_range m k h =
    unset-lt-length m.known_blocks k
      (not_true (is_known_at m k) (sym (needed_block_ranges-covers m k) ∙ h))
  where
    not_true : (b : Bool) → not b ≡ true → b ≡ false
    not_true true e = cc
    not_true false e = refl

-- Given a block size and a file length of at least one, and no more blocks than the length takes:
-- the requests of a download ask for every byte of a missing block, up to the length of the file,
-- and besides these only for the bytes of gaps up to the threshold.
pub planned-holds :
    (m : BlockMatcher) (blocksize file_length gap_threshold k : ℕ)
    → 1 ≤ blocksize
    → 1 ≤ file_length
    → IsSized m blocksize file_length
    → let ranges = byte_ranges_from_block_ranges (needed_block_ranges m) blocksize file_length in
      holds (merge_byte_ranges ranges gap_threshold) k ≡ (
        (not (is_known_at m (k / blocksize)) && ltb k file_length) || in_gap gap_threshold ranges k)
planned-holds m blocksize file_length gap_threshold k size some_bytes sized = ground (
  arith,
  merge_byte_ranges-holds
      (byte_ranges_from_block_ranges (needed_block_ranges m) blocksize file_length) gap_threshold k
      (subst (λ lo. IsAscending lo planned) none_before ascending),
  byte_ranges-holds blocksize file_length size some_bytes 0 (needed_block_ranges m) k separated,
  needed_block_ranges-covers m (k / blocksize),
)
  where
    planned : ByteRanges
    planned = byte_ranges_from_block_ranges (needed_block_ranges m) blocksize file_length

    separated : IsSeparated 0 (needed_block_ranges m)
    separated = needed_block_ranges-IsSeparated m

    none_before : 0 * blocksize ≡ 0
    none_before = omega arith

    ascending : IsAscending (0 * blocksize) planned
    ascending =
        byte_ranges-IsAscending blocksize file_length size some_bytes 0 (needed_block_ranges m)
          separated
          (needed-Exist m blocksize file_length 0 (needed_block_ranges m) (known_in_range m) sized
            separated)
