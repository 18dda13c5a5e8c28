-- ===== src/Matcher/Scan.antt =====
-- `ScanState::scan_chunk` of src/matcher.rs: the window slides over the input with its two rolling
-- checksums. A loop takes `x_limit` rounds at most, since each round moves `x` on.
pub mod Sound
pub mod Naive
pub mod Finish
use zsync_rs.Prelude.{ℕ, zero, suc, ◌+◌, ◌-◌, ◌*◌, Bool, true, false, List, [], ◌∷◌, ◌++◌}
use zsync_rs.Prelude.{length, get_or, slice, ltb, ◌==◌, if◌then◌else◌, ◌&&◌, Option, none, some}
use zsync_rs.Rsum.{Rsum, calc_rsum_block, roll}
use zsync_rs.Control.{Bytes}
use zsync_rs.Matcher.{BlockMatcher, target_at}
use zsync_rs.Matcher.Chain.{Matches, window, rsum_match, same_checksum, match_chain}

-- The variables of the loops.
pub record Scan : Type 0 where
  pub x : ℕ
  pub next_match_id : Option ℕ
  pub r0 : Rsum
  pub r1 : Rsum
  pub matched_blocks : Matches

-- `blocksize * seq_matches`
abbrev pub context : BlockMatcher → ℕ
context m = m.blocksize * m.hash_lengths.seq_matches

module _ (md4 : Bytes → Bytes) (m : BlockMatcher) (input : Bytes) (base_offset : ℕ) where
  abbrev pub is_pairs : Bool
  is_pairs = ltb 1 m.hash_lengths.seq_matches

  abbrev pub block_rsum : ℕ → Rsum
  block_rsum start = calc_rsum_block (slice input start (start + m.blocksize))

  -- Whether the block that the last match announced is at the window.
  pub hint_holds : ℕ → Scan → Bool
  hint_holds hint_id s =
      is_pairs
      && ltb hint_id (length m.targets)
      && rsum_match m (target_at m hint_id).rsum s.r0
      && same_checksum m (md4 (window md4 m input s.x base_offset)) (target_at m hint_id).checksum

  -- The use of the announced block. The result has `blocks_matched`.
  pub use_hint : Option ℕ → Scan → Scan × ℕ
  use_hint none s = (s, 0)
  use_hint (some hint_id) s =
      let sum = md4 (window md4 m input s.x base_offset) in
      let follower = if ltb (hint_id + 1) (length m.targets) then some (hint_id + 1) else none in
      let seen = s.matched_blocks ++ ((hint_id, base_offset + s.x) ∷ []) in
      let found =
        match_chain md4 m input s.x base_offset s.r0 s.r1 (some hint_id) (some sum) seen in
      if hint_holds hint_id s
      then (record s { next_match_id = follower; matched_blocks = found.1 }, 1)
      else (s, 0)

  -- `next_match_id.take()`: the hint is gone, whether it is of use or not.
  pub try_hint : Scan → Scan × ℕ
  try_hint s = use_hint s.next_match_id (record s { next_match_id = none })

  -- A look at the chain of the window.
  pub try_chain : Scan → Scan × ℕ
  try_chain s =
      let found = match_chain md4 m input s.x base_offset s.r0 s.r1 none none s.matched_blocks in
      elim found.0 [
        | none ↦ (record s { matched_blocks = found.1 }, 0)
        | some (matched, next) ↦
            (record s { next_match_id = next; matched_blocks = found.1 }, matched)
      ]

  -- The window moves on by one byte.
  pub slide : Scan → Scan
  slide s =
      let oc = get_or input s.x 0 in
      let nc = get_or input (s.x + m.blocksize) 0 in
      let nc2 = get_or input (s.x + m.blocksize * 2) 0 in
      record s {
        x = s.x + 1;
        r0 = roll m.blockshift s.r0 oc nc;
        r1 = if is_pairs then roll m.blockshift s.r1 nc nc2 else s.r1;
      }

  -- `while blocks_matched == 0 && x < x_limit`
  pub seek : ℕ → ℕ → Scan → Scan × ℕ
  seek zero x_limit s = (s, 0)
  seek (suc rounds) x_limit s =
      let found = try_chain s in
      let rest = seek rounds x_limit (slide found.0) in
      if ltb s.x x_limit then (if found.1 == 0 then rest else found) else (s, 0)

  -- The window moves past the blocks that matched.
  pub skip : ℕ → ℕ → Scan → Scan
  skip x_limit blocks_matched s =
      let x = s.x + m.blocksize * blocks_matched in
      if ltb x x_limit
      then record s {
        x = x;
        r0 = if is_pairs && blocks_matched == 1 then s.r1 else block_rsum x;
        r1 = if is_pairs then block_rsum (x + m.blocksize) else s.r1;
      }
      else record s { x = x }

  -- One round of the outer loop.
  pub round : ℕ → ℕ → Scan → Scan
  round rounds x_limit s =
      let hinted = try_hint s in
      let found = if hinted.1 == 0 then seek rounds x_limit hinted.0 else hinted in
      if found.1 == 0 then found.0 else skip x_limit found.1 found.0

  -- `while x < x_limit`
  pub scan_loop : ℕ → ℕ → Scan → Scan
  scan_loop zero x_limit s = s
  scan_loop (suc rounds) x_limit s =
      let rest = scan_loop rounds x_limit (round (suc rounds) x_limit s) in
      if ltb s.x x_limit then rest else s

  pub scan_start : Scan
  scan_start = record {
    x = 0;
    next_match_id = none;
    r0 = block_rsum 0;
    r1 = if is_pairs then block_rsum m.blocksize else record { a = 0; b = 0 };
    matched_blocks = [];
  }

  unfoldable pub scan_chunk : Matches
  unfolding hint_holds use_hint try_hint try_chain slide seek skip round scan_loop scan_start
  scan_chunk =
      let x_limit = length input - context m in
      if ltb (length input) (context m)
      then []
      else (scan_loop x_limit x_limit scan_start).matched_blocks
