-- ===== src/Matcher/Submit/Source.antt =====
-- `submit_source_data` of src/matcher.rs: what its answer says of the input and of the matcher, on
-- one thread or on several.
use zsync_rs.Prelude.{
  ℕ, zero, suc, ◌+◌, ◌-◌, ◌*◌, ◌≤◌, ◌≡◌, refl, inl, inr, arith, Bool, true, false,
}
use zsync_rs.Prelude.{
  length, slice, ltb, leb, ◌==◌, ◌&&◌, if◌then◌else◌, Bool-cases, All, All-append, All-map,
}
use zsync_rs.Control.{Bytes}
use zsync_rs.Matcher.{BlockMatcher, is_known_at}
use zsync_rs.Matcher.Chain.Sound.{IsIndexed, IsMatch}
use zsync_rs.Matcher.Scan.{context, scan_chunk}
use zsync_rs.Matcher.Scan.Sound.{scan_chunk-IsMatch}
use zsync_rs.Matcher.Known.{IsValid}
use zsync_rs.Matcher.Submit.{scan_threads, min_per_thread, candidates, submit_source_data}
use zsync_rs.Prelude.{slice-slice, length-slice_le}
use zsync_rs.Matcher.Submit.Accept.{
  names, IsDistinct, accept-known, accept-unknown, accept-IsDistinct, accept-IsValid, accept-count,
  accept-All, accept-keeps,
}

module _ (md4 : Bytes → Bytes) (m : BlockMatcher) (input : Bytes) (size : 1 ≤ m.blocksize) where
  -- A match in a part of the input is one in the input.
  chunk-IsMatch :
      (lo hi offset : ℕ)
      → (found : ℕ × ℕ) → IsMatch md4 m (slice input lo hi) (offset + lo) found
      → IsMatch md4 m input offset found
  chunk-IsMatch lo hi offset found (x, e, v) = (
    lo + x,
    omega (arith, e),
    record {
      in_targets = v.in_targets;
      in_input = omega (arith, v.in_input, length-slice_le input lo hi);
      digest = rw (slice-slice input lo hi x m.blocksize v.in_input) at (v.digest);
    },
  )

  module _ (ix : IsIndexed m) (some_blocks : 1 ≤ m.hash_lengths.seq_matches) where
    threads-IsMatch :
        (left i threads chunk_size offset : ℕ)
        → All
            (IsMatch md4 m input offset)
            (scan_threads md4 left i threads chunk_size input offset m)
    unfolding scan_threads
    threads-IsMatch zero i threads chunk_size offset = tt
    threads-IsMatch (suc left) i threads chunk_size offset =
        All-append (IsMatch md4 m input offset) _ _
          (All-map (IsMatch md4 m (slice input start end) (offset + start))
            (IsMatch md4 m input offset) (scan_chunk md4 m (slice input start end) (offset + start))
            (chunk-IsMatch start end offset)
            (scan_chunk-IsMatch md4 m (slice input start end) (offset + start) ix some_blocks))
          (threads-IsMatch left (i + 1) threads chunk_size offset)
      where
        start : ℕ
        start = i * chunk_size

        end : ℕ
        end = if i == threads - 1 then length input else (i + 1) * chunk_size + context m

    candidates-IsMatch :
        (num_threads offset : ℕ)
        → All (IsMatch md4 m input offset) (candidates md4 num_threads input offset m)
    unfolding candidates
    candidates-IsMatch num_threads offset = elim (Bool-cases split) [
      | inl several ↦ rw several (threads-IsMatch _ 0 _ _ offset)
      | inr one ↦ rw one (scan_chunk-IsMatch md4 m input offset ix some_blocks)
    ]
      where
        split : Bool
        split = ltb 1 num_threads && leb (min_per_thread md4 * 2) (length input - context m)

-- In a valid matcher whose block size and `seq_matches` are at least one, every pair that a scan of
-- local data reports, on any number of threads, names a block of the target and an offset at which
-- a whole window of the data has that block's digest.
pub submit_source_data-IsMatch :
    (md4 : Bytes → Bytes) (m : BlockMatcher) (input : Bytes) (num_threads offset : ℕ)
    → IsValid m
    → 1 ≤ m.blocksize
    → 1 ≤ m.hash_lengths.seq_matches
    → All (IsMatch md4 m input offset) (submit_source_data md4 num_threads input offset m).1
unfolding submit_source_data
submit_source_data-IsMatch md4 m input num_threads offset v size some_blocks =
    elim (Bool-cases (ltb (length input) (context m))) [
      | inl short ↦ rw short tt
      | inr long ↦ rw long (
          accept-All (IsMatch md4 m input offset) (candidates md4 num_threads input offset m) m
            (candidates-IsMatch md4 m input size v.indexed some_blocks num_threads offset))
    ]

-- What a scan records in a valid matcher: it stays valid, a block is known afterwards exactly if it
-- was known before or a pair names it, no block is named twice, and the counter grows by the number
-- of pairs.
pub submit_source_data-records :
    (md4 : Bytes → Bytes) (m : BlockMatcher) (input : Bytes) (num_threads offset : ℕ)
    → IsValid m
    → let (m', found) = submit_source_data md4 num_threads input offset m in
      IsValid m'
      × ((id : ℕ) → is_known_at m' id ≡ (if is_known_at m id then true else names id found))
      × IsDistinct found
      × (m'.known_count ≡ m.known_count + length found)
unfolding submit_source_data names IsDistinct
submit_source_data-records md4 m input num_threads offset v =
    elim (Bool-cases (ltb (length input) (context m))) [
      | inl short ↦ rw short (v, (λ id. as_known (is_known_at m id)), tt, omega arith)
      | inr long ↦ rw long (
          let found = candidates md4 num_threads input offset m in
          (
            accept-IsValid found v,
            accept-known found m,
            accept-IsDistinct found m,
            accept-count found m,
          ))
    ]
  where
    as_known : (b : Bool) → b ≡ (if b then true else false)
    as_known true = refl
    as_known false = refl

-- A scan changes neither the targets nor the lengths.
pub submit_source_data-keeps :
    (md4 : Bytes → Bytes) (m : BlockMatcher) (input : Bytes) (num_threads offset : ℕ)
    → let (m', found) = submit_source_data md4 num_threads input offset m in
      (m'.targets ≡ m.targets) × (m'.blocksize ≡ m.blocksize) × (m'.hash_lengths ≡ m.hash_lengths)
unfolding submit_source_data
submit_source_data-keeps md4 m input num_threads offset =
    elim (Bool-cases (ltb (length input) (context m))) [
      | inl short ↦ rw short (refl, refl, refl)
      | inr long ↦ rw long (
          let kept = accept-keeps (candidates md4 num_threads input offset m) m in
          (kept.0, kept.2, kept.1))
    ]

-- A scan reports only blocks that were unknown.
pub submit_source_data-unknown :
    (md4 : Bytes → Bytes) (m : BlockMatcher) (input : Bytes) (num_threads offset id : ℕ)
    → is_known_at m id ≡ true
    → names id (submit_source_data md4 num_threads input offset m).1 ≡ false
unfolding submit_source_data names
submit_source_data-unknown md4 m input num_threads offset id h =
    elim (Bool-cases (ltb (length input) (context m))) [
      | inl short ↦ rw short refl
      | inr long ↦ rw long (accept-unknown (candidates md4 num_threads input offset m) m id h)
    ]
