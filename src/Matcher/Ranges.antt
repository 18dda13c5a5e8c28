-- ===== src/Matcher/Ranges.antt =====
-- `needed_block_ranges` of src/matcher.rs.
pub mod Cover
use zsync_rs.Prelude.{
  ℕ, ◌+◌, Bool, true, false, not, List, [], ◌∷◌, ◌++◌, length, Option, none, some,
}
use zsync_rs.Matcher.{BlockMatcher}

abbrev pub BlockRanges : Type 0
BlockRanges = List (ℕ × ℕ)

-- The loop over `known_blocks` from index `i` on, with `start` and the ranges pushed so far.
ranges_loop : List Bool → ℕ → Option ℕ → BlockRanges → BlockRanges × Option ℕ
ranges_loop [] i start ranges = (ranges, start)
ranges_loop (false ∷ known) i none ranges = ranges_loop known (i + 1) (some i) ranges
ranges_loop (false ∷ known) i (some s) ranges = ranges_loop known (i + 1) (some s) ranges
ranges_loop (true ∷ known) i none ranges = ranges_loop known (i + 1) none ranges
ranges_loop (true ∷ known) i (some s) ranges =
    ranges_loop known (i + 1) none (ranges ++ ((s, i) ∷ []))

-- The run that is still open at the end.
close_range : BlockRanges × Option ℕ → ℕ → BlockRanges
close_range (ranges, none) n = ranges
close_range (ranges, some s) n = ranges ++ ((s, n) ∷ [])

unfoldable pub needed_block_ranges : BlockMatcher → BlockRanges
unfolding ranges_loop close_range
needed_block_ranges m = close_range (ranges_loop m.known_blocks 0 none []) (length m.known_blocks)
