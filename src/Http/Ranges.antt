-- ===== src/Http/Ranges.antt =====
-- `byte_ranges_from_block_ranges` and `merge_byte_ranges` of src/http.rs.
pub mod Cover
pub mod Plan
use zsync_rs.Prelude.{ℕ, ◌+◌, ◌-◌, ◌*◌, min, List, [], ◌∷◌, ◌++◌, map, leb, if◌then◌else◌}
use zsync_rs.Matcher.Ranges.{BlockRanges}

-- Inclusive ranges of bytes.
abbrev pub ByteRanges : Type 0
ByteRanges = List (ℕ × ℕ)

-- `DEFAULT_RANGE_GAP_THRESHOLD`, 16 KiB.
abbrev pub default_range_gap_threshold : ℕ
default_range_gap_threshold = 16 * 1024

-- The loop of `merge_byte_ranges`: `merged` with its last element apart.
merge_loop : ℕ → ByteRanges → ℕ → ℕ → ByteRanges → ByteRanges
merge_loop gap_threshold merged start end [] = merged ++ ((start, end) ∷ [])
merge_loop gap_threshold merged start end ((start', end') ∷ ranges) =
    let gap = start' - (end + 1) in
    let joined = merge_loop gap_threshold merged start end' ranges in
    let apart = merge_loop gap_threshold (merged ++ ((start, end) ∷ [])) start' end' ranges in
    if leb gap gap_threshold then joined else apart

unfoldable pub merge_byte_ranges : ByteRanges → ℕ → ByteRanges
unfolding merge_loop
merge_byte_ranges [] gap_threshold = []
merge_byte_ranges ((start, end) ∷ []) gap_threshold = (start, end) ∷ []
merge_byte_ranges ((start, end) ∷ next ∷ ranges) gap_threshold =
    merge_loop gap_threshold [] start end (next ∷ ranges)

-- The bytes of one range of blocks. `file_length - 1` wraps for an empty file in the source, which
-- has no blocks.
byte_range : ℕ → ℕ → ℕ × ℕ → ℕ × ℕ
byte_range blocksize file_length (start_block, end_block) =
    (start_block * blocksize, min (end_block * blocksize - 1) (file_length - 1))

unfoldable pub byte_ranges_from_block_ranges : BlockRanges → ℕ → ℕ → ByteRanges
unfolding byte_range
byte_ranges_from_block_ranges block_ranges blocksize file_length =
    map (byte_range blocksize file_length) block_ranges
