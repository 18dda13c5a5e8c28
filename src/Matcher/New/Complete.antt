-- ===== src/Matcher/New/Complete.antt =====
-- The index that `BlockMatcher::new` of src/matcher.rs builds is complete.
use native.Mathlib.Nat.{pow-le-pow_right, one-le-pow}
use native.Mathlib.Decide.{dec_lt}
use zsync_rs.Prelude.{
  ℕ, zero, suc, ◌-◌, ◌%◌, ◌≤◌, ◌<◌, ◌^◌, ◌≡◌, refl, inl, inr, arith, u32, bit32, ltb, length, ◌&&◌,
  Bool-cases,
}
use zsync_rs.Control.{ControlFile}
use zsync_rs.Control.Header.{max_blocks}
use zsync_rs.Control.Records.Trip.{IsAccepted}
use Prim.Native.Nat.{bit_and}
use zsync_rs.Prelude.{◌+◌, ◌/◌, ◌≢◌, ◌⊎◌, get_or, if◌then◌else◌, true}
use zsync_rs.Rsum.{Rsum}
use zsync_rs.Matcher.{BlockMatcher, target_at, hash_empty, calc_hash}
use zsync_rs.Matcher.Chain.{calc_hash_rolling, rsum_match}
use zsync_rs.Matcher.Known.{IsValid}
use zsync_rs.Matcher.New.{
  index_block, index_blocks, empty_matcher, new, avail_bits, shrink_bits, bithash_bits_total,
}
use zsync_rs.Matcher.New.Valid.{empty-IsBuilt, length-targets, new-IsValid}
use zsync_rs.Matcher.New.Found.{IsOn, IsFilled, index_blocks-IsFilled, empty-IsFilled}

log_bound : (n : ℕ) → 2 ^ n ≤ 2 ^ 26 → n ≤ 26
log_bound n h = elim (dec_lt 26 n) [
  | yes big ↦ absurd (omega (arith, pow-le-pow_right {n = 2} (omega arith) {i = 27} {j = n} big))
  | no small ↦ omega arith
]

shrink_bits-le : (num_blocks n : ℕ) → num_blocks ≤ 2 ^ 26 → n ≤ 32 → shrink_bits num_blocks n ≤ 27
unfolding shrink_bits
shrink_bits-le num_blocks zero h word = omega arith
shrink_bits-le num_blocks (suc n) h word =
    elim (Bool-cases (ltb 5 (suc n) && ltb (u32 num_blocks) (bit32 n))) [
      | inl more ↦ rw more (shrink_bits-le num_blocks n h (omega arith))
      | inr done ↦ rw done (elim (dec_lt 5 (suc n)) [
        | yes big ↦
            let whole : n % 32 ≡ n = omega arith in
            let fits = log_bound n (ground (arith, rw whole at done)) in omega (arith, fits)
        | no few ↦ omega arith
      ])
    ]

-- With at most 2^26 blocks and four bytes of the sums, the table takes at most 27 bits and the bit
-- filter at most 30, so no shift of the constructor reaches the width of its word.
hash_bits_bound :
    (num_blocks seq_matches rsum_bytes : ℕ)
    → num_blocks ≤ 2 ^ 26
    → rsum_bytes ≤ 4
    → let avail = avail_bits seq_matches rsum_bytes in
      let hash_bits = shrink_bits num_blocks avail in
      (hash_bits ≤ 27) × (bithash_bits_total hash_bits avail ≤ 30)
unfolding bithash_bits_total avail_bits
hash_bits_bound num_blocks seq_matches rsum_bytes few narrow =
    let bound = shrink_bits-le num_blocks (avail_bits seq_matches rsum_bytes) few (ground arith) in
    (bound, omega (arith, bound))

bit32-bound : (n k : ℕ) → n ≤ k → k < 32 → bit32 n - 1 < 2 ^ k
bit32-bound n k le word =
    let whole : n % 32 ≡ n = omega arith in
    rw (whole) (
      omega (
        arith,
        pow-le-pow_right {n = 2} (omega arith) {i = n} {j = k} le,
        one-le-pow n 2 (omega arith),
      ))

-- The second sum of the block after block `id`, which is hashed with it; 0 after the last one.
abbrev pub next_sum : BlockMatcher → ℕ → ℕ
next_sum m id = if ltb (id + 1) (length m.targets) then (target_at m (id + 1)).rsum.b else 0

-- The sums of two windows are those of block `id`, and of the block after it where pairs are hashed.
pub record HasSums (m : BlockMatcher) (id : ℕ) (r0 r1 : Rsum) : Type 0 where
  pub first_sums : rsum_match m (target_at m id).rsum r0 ≡ true
  pub second_sum : (m.hash_lengths.seq_matches ≤ 1) ⊎ (r1.b ≡ next_sum m id)

-- What a scan looks up for these sums leads to block `id`: its bit is set in the filter, and it is on
-- the chain of the bucket.
pub record IsReached (m : BlockMatcher) (id : ℕ) (r0 r1 : Rsum) : Type 0 where
  pub on_chain :
      IsOn m.hash_next id
        (get_or m.hash_table (bit_and (calc_hash_rolling m r0 r1) m.hash_mask) hash_empty)
  pub in_filter :
      let bh = bit_and (calc_hash_rolling m r0 r1) m.bithash_mask in
      bit_and (get_or m.bithash (bh / 8) 0) (2 ^ bit_and bh 7) ≢ 0

-- The sums of a window have the hash of its block.
calc_hash_rolling-calc_hash :
    (m : BlockMatcher) (id : ℕ) (r0 r1 : Rsum)
    → HasSums m id r0 r1
    → calc_hash_rolling m r0 r1 ≡ calc_hash m id
unfolding calc_hash_rolling calc_hash rsum_match
calc_hash_rolling-calc_hash m id r0 r1 h = elim (Bool-cases (ltb 1 m.hash_lengths.seq_matches)) [
  | inr alone ↦ rw alone (cc (same_a, same_b))
  | inl pairs ↦ rw pairs (cc (same_b, followed h.second_sum pairs))
]
  where
    same_a : (target_at m id).rsum.a ≡ bit_and r0.a m.rsum_a_mask
    same_a = ground (arith, h.first_sums)

    same_b : (target_at m id).rsum.b ≡ r0.b
    same_b = ground (arith, h.first_sums)

    followed :
        (m.hash_lengths.seq_matches ≤ 1) ⊎ (r1.b ≡ next_sum m id)
        → ltb 1 m.hash_lengths.seq_matches ≡ true
        → r1.b ≡ next_sum m id
    followed (inl few) pairs = absurd (ground arith)
    followed (inr e) pairs = e

-- An index that holds every block, all of them unknown. Its masks have less than 32 bits.
pub record IsComplete (m : BlockMatcher) : Type 0 where
  pub valid : IsValid m
  pub reached :
      (id : ℕ) (r0 r1 : Rsum) → id < length m.targets → HasSums m id r0 r1 → IsReached m id r0 r1
  pub none_known : m.known_count ≡ 0
  pub table_mask : m.hash_mask < 2 ^ 27
  pub filter_mask : m.bithash_mask < 2 ^ 30

index_blocks-masks :
    (n : ℕ) (m : BlockMatcher)
    → ((index_blocks n m).hash_mask ≡ m.hash_mask)
      × ((index_blocks n m).bithash_mask ≡ m.bithash_mask)
      × ((index_blocks n m).known_count ≡ m.known_count)
unfolding index_blocks index_block
index_blocks-masks zero m = (refl, refl, refl)
index_blocks-masks (suc id) m = index_blocks-masks id (index_block id m)

-- The index of a control file with hash lengths that `parse` accepts and at most 2^26 blocks is
-- valid and complete: for any block, and any windows with its sums, followed, where pairs are
-- hashed, by the second sum of the next block or 0 after the last, what a scan looks up by the hash
-- of the windows leads to the block, as the bit is set in the filter and the chain of the bucket
-- holds it; and no block is known. The masks of the table and of the filter have at most 27 and 30
-- bits.
pub new-IsComplete :
    (control : ControlFile)
    → IsAccepted control.hash_lengths
    → length control.block_checksums ≤ max_blocks
    → IsComplete (new control)
unfolding new empty_matcher
new-IsComplete control accepted few =
    let same = index_blocks-masks n (empty_matcher control) in
    let (table, filter) =
      hash_bits_bound n control.hash_lengths.seq_matches control.hash_lengths.rsum_bytes
        (omega arith) accepted.rsum_range.1 in
    record {
      valid = new-IsValid control few;
      reached = λ id r0 r1 below sums.
          let found = filled.found id (omega arith) below in
          let same_hash = calc_hash_rolling-calc_hash (new control) id r0 r1 sums in
          record {
            on_chain = rw (same_hash) (found.on_chain);
            in_filter = rw (same_hash) (found.in_filter);
          };
      none_known = same.2;
      table_mask = rw (same.0) (bit32-bound _ 27 table (omega arith));
      filter_mask = rw (same.1) (bit32-bound _ 30 filter (omega arith));
    }
  where
    n : ℕ
    n = length control.block_checksums

    filled : IsFilled 0 (new control)
    filled =
        index_blocks-IsFilled n (empty_matcher control) (omega (arith, length-targets control))
          (omega (arith, length-targets control)) (empty-IsBuilt control) (empty-IsFilled control)
