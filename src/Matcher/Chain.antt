-- ===== src/Matcher/Chain.antt =====
-- `ScanState::match_chain` of src/matcher.rs, with the hash and the tests that it uses.
pub mod Sound
pub mod Fuel
use Prim.Native.Nat.{bit_and, bit_xor}
use zsync_rs.Prelude.{bytes_eq}
use zsync_rs.Prelude.{
  ℕ, zero, suc, ◌+◌, ◌-◌, ◌*◌, ◌/◌, ◌^◌, Bool, true, false, not, List, [], ◌∷◌, ◌++◌,
}
use zsync_rs.Prelude.{
  length, get_or, take, slice, ltb, ◌==◌, if◌then◌else◌, ◌&&◌, ◌||◌, shl32, Option, none, some,
}
use zsync_rs.Rsum.{Rsum}
use zsync_rs.Control.{Bytes}
use zsync_rs.Matcher.{BlockMatcher, target_at, hash_empty}

unfoldable pub calc_hash_rolling : BlockMatcher → Rsum → Rsum → ℕ
calc_hash_rolling m r0 r1 =
    if ltb 1 m.hash_lengths.seq_matches
    then bit_xor r0.b (shl32 r1.b m.hash_func_shift)
    else bit_xor r0.b (shl32 (bit_and r0.a m.rsum_a_mask) m.hash_func_shift)

unfoldable pub rsum_match : BlockMatcher → Rsum → Rsum → Bool
rsum_match m target rolling = target.a == bit_and rolling.a m.rsum_a_mask && target.b == rolling.b

-- `sum[..checksum_bytes] == checksum[..checksum_bytes]`
unfoldable pub same_checksum : BlockMatcher → Bytes → Bytes → Bool
same_checksum m sum checksum =
    let n = m.hash_lengths.checksum_bytes in bytes_eq (take n sum) (take n checksum)

abbrev pub is_matched : Option ℕ → ℕ → Bool
is_matched none id = false
is_matched (some k) id = k == id

abbrev pub unwrap_or {ℓ} : {A : Type ℓ} → Option A → A → A
unwrap_or none d = d
unwrap_or (some a) d = a

-- `Vec<(usize, usize)>`: blocks with the source offsets where they were found.
abbrev pub Matches : Type 0
Matches = List (ℕ × ℕ)

-- The variables that the loop over a chain changes.
pub record Walk : Type 0 where
  pub checksum : Option Bytes
  pub next_checksum : Option Bytes
  pub first : Option (ℕ × Option ℕ)
  pub matched_blocks : Matches

-- `first.get_or_insert(f)`
abbrev pub get_or_insert {ℓ} : {A : Type ℓ} → Option A → A → Option A
get_or_insert none f = some f
get_or_insert (some a) f = some a

module _ (md4 : Bytes → Bytes) (m : BlockMatcher) (input : Bytes) (x : ℕ) (base_offset : ℕ) where
  abbrev pub window : Bytes
  window = slice input x (x + m.blocksize)

  abbrev pub next_window : Bytes
  next_window = slice input (x + m.blocksize) (x + m.blocksize * 2)

  -- The branch of a block with a following one, when `seq_matches` is 2.
  visit_pair : ℕ → Rsum → Walk → Walk
  visit_pair block_id r1 w =
      let target = target_at m block_id in
      let next_target = target_at m (block_id + 1) in
      let sum = unwrap_or w.checksum (md4 window) in
      let next_sum = unwrap_or w.next_checksum (md4 next_window) in
      if not (rsum_match m next_target.rsum r1)
      then w
      else if not (same_checksum m sum target.checksum)
      then record w { checksum = some sum }
      else if same_checksum m next_sum next_target.checksum
      then record {
        checksum = some sum;
        next_checksum = some next_sum;
        first = get_or_insert w.first (
          m.hash_lengths.seq_matches,
          if ltb (block_id + 2) (length m.targets) then some (block_id + 2) else none,
        );
        matched_blocks =
            w.matched_blocks
            ++ ((block_id, base_offset + x) ∷ (block_id + 1, base_offset + x + m.blocksize) ∷ []);
      }
      else record w { checksum = some sum; next_checksum = some next_sum }

  -- The branch of a block on its own.
  visit_single : ℕ → Walk → Walk
  visit_single block_id w =
      let sum = unwrap_or w.checksum (md4 window) in
      if same_checksum m sum (target_at m block_id).checksum
      then record w {
        checksum = some sum;
        first = get_or_insert w.first (1, none);
        matched_blocks = w.matched_blocks ++ ((block_id, base_offset + x) ∷ []);
      }
      else record w { checksum = some sum }

  -- The body of the loop, after the step to the next link.
  visit : Option ℕ → ℕ → Rsum → Rsum → Walk → Walk
  unfolding visit_pair visit_single
  visit matched block_id r0 r1 w =
      if is_matched matched block_id || not (rsum_match m (target_at m block_id).rsum r0)
      then w
      else if ltb 1 m.hash_lengths.seq_matches && ltb (block_id + 1) (length m.targets)
      then visit_pair block_id r1 w
      else visit_single block_id w

  -- `while block_idx != HASH_EMPTY`, with at most as many rounds as there are blocks.
  pub walk : Option ℕ → Rsum → Rsum → ℕ → ℕ → Walk → Walk
  unfolding visit
  walk matched r0 r1 zero block_idx w = w
  walk matched r0 r1 (suc rounds) block_idx w =
      let rest =
        walk matched r0 r1 rounds (get_or m.hash_next block_idx hash_empty)
          (visit matched block_idx r0 r1 w) in
      if block_idx == hash_empty then w else rest

  -- The bit filter.
  filter_bit : Rsum → Rsum → ℕ
  filter_bit r0 r1 =
      let bh = bit_and (calc_hash_rolling m r0 r1) m.bithash_mask in
      bit_and (get_or m.bithash (bh / 8) 0) (2 ^ bit_and bh 7)

  unfoldable pub match_chain :
      Rsum → Rsum → Option ℕ → Option Bytes → Matches → Option (ℕ × Option ℕ) × Matches
  unfolding walk filter_bit
  match_chain r0 r1 matched checksum matched_blocks =
      let start : Walk = record {
        checksum = checksum;
        next_checksum = none;
        first = none;
        matched_blocks = matched_blocks;
      } in
      let head = get_or m.hash_table (bit_and (calc_hash_rolling m r0 r1) m.hash_mask) hash_empty in
      let done = walk matched r0 r1 (length m.targets) head start in
      if filter_bit r0 r1 == 0 then (none, matched_blocks) else (done.first, done.matched_blocks)
