-- ===== src/Matcher/Submit.antt =====
-- `submit_blocks` and `submit_source_data` of src/matcher.rs.
pub mod Keeps
pub mod Blocks
pub mod Accept
pub mod Source
pub mod Generated
pub mod Single
use Prim.Native.Nat.{bit_and, bit_xor}
use zsync_rs.Prelude.{ℕ, zero, suc, ◌+◌, ◌-◌, ◌*◌, ◌/◌, min, Bool, true, false, List, [], ◌∷◌, ◌++◌}
use zsync_rs.Prelude.{length, slice, ltb, leb, ◌==◌, if◌then◌else◌, ◌&&◌, Option, none, some}
use zsync_rs.Control.{Bytes}
use zsync_rs.Matcher.{BlockMatcher, target_at, is_known_at, mark_known, remove_block_from_hash}
use zsync_rs.Matcher.Chain.{Matches, same_checksum}
use zsync_rs.Matcher.Scan.{context, scan_chunk}

-- The first sighting of each block that was still unknown.
unfoldable pub accept : Matches → BlockMatcher → BlockMatcher × Matches
accept [] m = (m, [])
accept ((block_id, offset) ∷ rest) m =
    let taken = accept rest (remove_block_from_hash block_id (mark_known block_id m)) in
    let left = accept rest m in
    if is_known_at m block_id then left else (taken.0, (block_id, offset) ∷ taken.1)

module _ (md4 : Bytes → Bytes) where
  -- The loop of `submit_blocks`, with the rounds left and the index of the next.
  pub submit_loop : ℕ → ℕ → Bytes → ℕ → BlockMatcher → BlockMatcher × Bool
  submit_loop zero i input block_start m = (m, true)
  submit_loop (suc rounds) i input block_start m =
      let block_id = block_start + i in
      let sum = md4 (slice input (i * m.blocksize) ((i + 1) * m.blocksize)) in
      let rest = submit_loop rounds (i + 1) input block_start (mark_known block_id m) in
      if leb (length m.targets) block_id
      then (m, true)
      else if same_checksum m sum (target_at m block_id).checksum
      then rest
      else (m, false)

  unfoldable pub submit_blocks : Bytes → ℕ → BlockMatcher → BlockMatcher × Bool
  unfolding submit_loop
  submit_blocks input block_start m = submit_loop (length input / m.blocksize) 0 input block_start m

  -- The chunks of the threads, joined in the order in which the threads were started.
  scan_threads : ℕ → ℕ → ℕ → ℕ → Bytes → ℕ → BlockMatcher → Matches
  scan_threads zero i threads chunk_size input offset m = []
  scan_threads (suc left) i threads chunk_size input offset m =
      let start = i * chunk_size in
      let end = if i == threads - 1 then length input else (i + 1) * chunk_size + context m in
      scan_chunk md4 m (slice input start end) (offset + start)
      ++ scan_threads left (i + 1) threads chunk_size input offset m

  -- What a thread should have at least, 2 MiB.
  abbrev min_per_thread : ℕ
  min_per_thread = 2 * 1024 * 1024

  -- All candidates, from one scan or from several threads. `num_threads` is what
  -- `available_parallelism` answers, or 1.
  candidates : ℕ → Bytes → ℕ → BlockMatcher → Matches
  unfolding scan_threads
  candidates num_threads input offset m =
      let scannable = length input - context m in
      let threads = min num_threads (scannable / min_per_thread) in
      if ltb 1 num_threads && leb (min_per_thread * 2) scannable
      then scan_threads threads 0 threads (scannable / threads) input offset m
      else scan_chunk md4 m input offset

  unfoldable pub submit_source_data : ℕ → Bytes → ℕ → BlockMatcher → BlockMatcher × Matches
  unfolding candidates accept
  submit_source_data num_threads input offset m =
      if ltb (length input) (context m)
      then (m, [])
      else accept (candidates num_threads input offset m) m
