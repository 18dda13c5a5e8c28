-- ===== src/Matcher/Tests.antt =====
-- Runs of the matcher on the inputs of the unit tests of src/matcher.rs, with a digest that is easy
-- to follow in place of MD4: the block itself.
use zsync_rs.Prelude.{
  ℕ, ◌≡◌, ◌≤◌, ◌<◌, ◌+◌, ◌/◌, ◌⊎◌, refl, arith, true, false, not, if◌then◌else◌, [], ◌∷◌, ◌++◌,
  none, replicate, All, length, ltb, ◌==◌,
}
use zsync_rs.Prelude.{get_or, some, ◌-◌}
use zsync_rs.Rsum.{Rsum}
use zsync_rs.Control.Generate.{Logarithms, generate, control_of}
use zsync_rs.Matcher.{hash_empty}
use zsync_rs.Matcher.Chain.{Walk, walk}
use zsync_rs.Matcher.Chain.Fuel.{walk-length}
use zsync_rs.Matcher.Scan.{context, scan_loop, scan_start}
use zsync_rs.Matcher.Scan.Finish.{scan_loop-x}
use zsync_rs.Matcher.Submit.Generated.{generate-submit_blocks}
use zsync_rs.Rsum.{calc_rsum_block, roll}
use zsync_rs.Control.Records.Trip.{kept_rsum}
use zsync_rs.Control.Generate.Lengths.{calculate_hash_lengths-IsAccepted}
use zsync_rs.Matcher.New.Complete.{IsComplete, new-IsComplete}
use zsync_rs.Prelude.{slice, replicate, ◌++◌, ◌-◌, ◌*◌}
use zsync_rs.Control.{Bytes, BlockChecksum, ControlFile}
use zsync_rs.Matcher.{
  BlockMatcher, is_known_at, calc_hash, remove_block_from_hash, mark_known, blocks_todo,
}
use zsync_rs.Matcher.New.{new, rsum_a_mask, target_of}
use zsync_rs.Matcher.Chain.{match_chain, calc_hash_rolling, rsum_match, same_checksum}
use zsync_rs.Matcher.Scan.{scan_chunk}
use zsync_rs.Matcher.Submit.{submit_blocks, submit_source_data}
use zsync_rs.Matcher.Ranges.{needed_block_ranges}
use zsync_rs.Matcher.Ranges.Cover.{covers, needed_block_ranges-covers}
use zsync_rs.Matcher.Known.{IsValid}
use zsync_rs.Matcher.New.Valid.{new-IsValid}
use zsync_rs.Matcher.New.Target.{rsum_match-kept}
use zsync_rs.Matcher.Chain.Sound.{IsMatch}
use zsync_rs.Matcher.Scan.Naive.{naive_scan}
use zsync_rs.Matcher.Scan.Naive.Agree.{scan_chunk-naive_scan}
use zsync_rs.Matcher.Submit.Accept.{names, IsDistinct}
use zsync_rs.Matcher.Submit.Source.{submit_source_data-IsMatch, submit_source_data-records}
use zsync_rs.Matcher.Submit.Keeps.{IsKnown}
use zsync_rs.Matcher.Submit.Blocks.{Holds, Verified, submit_blocks_sound, submit_blocks-answer}

abbrev pub plain : Bytes → Bytes
plain block = block

abbrev block : Bytes → BlockChecksum
unfolding calc_rsum_block
block bytes = record { rsum = calc_rsum_block bytes; checksum = bytes }

abbrev pub control : ℕ → ControlFile
unfolding calc_rsum_block
control seq_matches = record {
  version = [];
  filename = none;
  mtime = none;
  blocksize = 4;
  file_length = 12;
  hash_lengths = record { seq_matches = seq_matches; rsum_bytes = 4; checksum_bytes = 16 };
  urls = [];
  sha1 = none;
  block_checksums =
      block (1 ∷ 2 ∷ 3 ∷ 4 ∷ []) ∷ block (5 ∷ 6 ∷ 7 ∷ 8 ∷ []) ∷ block (9 ∷ 10 ∷ 11 ∷ 12 ∷ []) ∷ [];
}

abbrev whole : Bytes
whole = 1 ∷ 2 ∷ 3 ∷ 4 ∷ 5 ∷ 6 ∷ 7 ∷ 8 ∷ 9 ∷ 10 ∷ 11 ∷ 12 ∷ []

abbrev shifted : Bytes
shifted = 0xaa ∷ whole ++ replicate 8 0

new_todo : blocks_todo (new (control 1)) ≡ 3
unfolding blocks_todo new calc_hash calc_rsum_block
new_todo = refl

finds_all :
    (submit_source_data plain 1 (whole ++ replicate 4 0) 0 (new (control 1))).1
    ≡ (0, 0) ∷ (1, 4) ∷ (2, 8) ∷ []
unfolding submit_source_data new calc_hash calc_rsum_block scan_chunk match_chain calc_hash_rolling
    rsum_match same_checksum roll mark_known remove_block_from_hash
finds_all = refl

finds_pairs :
    (submit_source_data plain 1 shifted 0 (new (control 2))).1 ≡ (0, 1) ∷ (1, 5) ∷ (2, 9) ∷ []
unfolding submit_source_data new calc_hash calc_rsum_block scan_chunk match_chain calc_hash_rolling
    rsum_match same_checksum roll mark_known remove_block_from_hash
finds_pairs = refl

ranges_after_download :
    needed_block_ranges (submit_blocks plain (5 ∷ 6 ∷ 7 ∷ 8 ∷ []) 1 (new (control 1))).0
    ≡ (0, 1) ∷ (2, 3) ∷ []
unfolding needed_block_ranges submit_blocks new calc_hash calc_rsum_block same_checksum mark_known
ranges_after_download = refl

abbrev singles : BlockMatcher
singles = new (control 1)

singles-IsValid : IsValid singles
unfolding control
singles-IsValid = new-IsValid (control 1) (omega arith)

submit_source_data-IsMatch_example :
    All (IsMatch plain singles shifted 100) (submit_source_data plain 2 shifted 100 singles).1
unfolding new control
submit_source_data-IsMatch_example =
    submit_source_data-IsMatch plain singles shifted 2 100 singles-IsValid (omega arith)
      (omega arith)

submit_source_data-records_example :
    let (m', found) = submit_source_data plain 2 shifted 0 singles in
    IsValid m'
    × ((id : ℕ) → is_known_at m' id ≡ (if is_known_at singles id then true else names id found))
    × IsDistinct found
    × (m'.known_count ≡ singles.known_count + length found)
submit_source_data-records_example =
    submit_source_data-records plain singles shifted 2 0 singles-IsValid

scan_chunk-naive_scan_example :
    scan_chunk plain singles shifted 0 ≡ naive_scan plain singles shifted 0
unfolding new control
scan_chunk-naive_scan_example =
    scan_chunk-naive_scan plain singles shifted 0 (omega arith) (ground arith) refl

abbrev second : Bytes
second = 5 ∷ 6 ∷ 7 ∷ 8 ∷ []

submit_blocks_sound_example :
    IsKnown singles 1 ⊎ Verified plain second 1 singles 0 (length second / singles.blocksize) 1
unfolding submit_blocks new calc_hash calc_rsum_block same_checksum mark_known control
submit_blocks_sound_example = submit_blocks_sound plain second 1 singles 1 refl

submit_blocks-answer_example :
    ((submit_blocks plain second 1 singles).1 ≡ true
      → (j : ℕ) → j < length second / singles.blocksize
      → 1 + j < length singles.targets
      → IsKnown (submit_blocks plain second 1 singles).0 (1 + j) × Holds plain second 1 singles j)
    × ((submit_blocks plain second 1 singles).1 ≡ false
        → (j : ℕ) × (j < length second / singles.blocksize)
          × (1 + j < length singles.targets)
          × ¬ Holds plain second 1 singles j)
submit_blocks-answer_example = submit_blocks-answer plain second 1 singles singles-IsValid

needed_block_ranges-covers_example :
    covers (needed_block_ranges (mark_known 1 singles)) 2
    ≡ not (is_known_at (mark_known 1 singles) 2)
needed_block_ranges-covers_example = needed_block_ranges-covers (mark_known 1 singles) 2

rsum_match-kept_example :
    let target =
      target_of
        (rsum_a_mask 4)
        (record { rsum = kept_rsum 4 (calc_rsum_block second); checksum = second }) in
    rsum_match singles target.rsum (calc_rsum_block second)
    ≡ (if 4 == 1 then ltb (calc_rsum_block second).b 256 else true)
unfolding new control calc_rsum_block
rsum_match-kept_example =
    rsum_match-kept singles 4 (calc_rsum_block second) second (omega arith) (omega arith)
      (omega arith) refl

-- The lengths that `generate` computes for small files.
abbrev small_logs : Logarithms
small_logs = record {
  rsum_estimate = λ n blocksize matches. 1;
  checksum_estimate = λ n blocksize matches. 3;
}

abbrev made : ControlFile
made = control_of plain plain small_logs whole [] [] 8

-- The last block, of half a row.
generate-submit_blocks_example :
    let row = slice whole (1 * made.blocksize) ((1 + 1) * made.blocksize) in
    (submit_blocks plain (row ++ replicate (made.blocksize - length row) 0) 1 (new made)).1 ≡ true
unfolding control_of generate
generate-submit_blocks_example =
    generate-submit_blocks plain plain small_logs whole [] [] (some 8) made 1 refl (omega arith)
      (omega arith)

new-IsComplete_example : IsComplete (new made)
unfolding control_of
new-IsComplete_example =
    new-IsComplete made (calculate_hash_lengths-IsAccepted small_logs 12 8) (omega arith)

scan_loop-x_example :
    length shifted - context singles
    ≤ (scan_loop plain singles shifted 0
        (length shifted - context singles)
        (length shifted - context singles)
        (scan_start plain singles shifted 0)).x
unfolding new control
scan_loop-x_example = scan_loop-x plain singles shifted 0 (omega arith)

walk-length_example :
    let start = get_or singles.hash_table 3 hash_empty in
    let w : Walk = record {
      checksum = none;
      next_checksum = none;
      first = none;
      matched_blocks = [];
    } in
    let r : Rsum = record { a = 1; b = 2 } in
    walk plain singles shifted 0 0 none r r 5 start w
    ≡ walk plain singles shifted 0 0 none r r (length singles.targets) start w
unfolding new control
walk-length_example =
    walk-length plain singles shifted 0 0 singles-IsValid.indexed none (record { a = 1; b = 2 })
      (record { a = 1; b = 2 }) 5 3
      (record { checksum = none; next_checksum = none; first = none; matched_blocks = [] })
      (omega arith)
