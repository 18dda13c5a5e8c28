-- ===== src/Matcher.antt =====
-- src/matcher.rs: the index of a target's blocks, and the record of which are known.
-- An index that the source never lets run out of a vector reads a default here, where Rust panics.
pub mod New
pub mod Chain
pub mod Scan
pub mod Submit
pub mod Ranges
pub mod Known
pub mod Unlink
mod Tests
use Prim.Native.Nat.{bit_and, bit_xor}
use zsync_rs.Prelude.{
  ℕ, zero, suc, ◌+◌, ◌-◌, ◌<◌, ◌≤◌, ◌^◌, ◌≡◌, ◌⊎◌, Bool, true, false, List, [], ◌∷◌,
}
use zsync_rs.Prelude.{
  length, get_or, set, ltb, ◌==◌, if◌then◌else◌, ◌&&◌, ◌||◌, shl32, Option, none, some,
}
use zsync_rs.Rsum.{Rsum}
use zsync_rs.Control.{Bytes, HashLengths}

-- `HASH_EMPTY`, `u32::MAX`: the end of a chain.
abbrev pub hash_empty : ℕ
hash_empty = 2 ^ 32 - 1

pub record TargetBlock : Type 0 where
  pub rsum : Rsum
  pub checksum : Bytes

pub record BlockMatcher : Type 0 where
  pub blocksize : ℕ
  pub blockshift : ℕ
  pub hash_lengths : HashLengths
  pub rsum_a_mask : ℕ
  pub hash_func_shift : ℕ
  pub targets : List TargetBlock
  pub known_blocks : List Bool
  pub known_count : ℕ
  pub hash_table : List ℕ
  pub hash_next : List ℕ
  pub hash_mask : ℕ
  pub bithash : List ℕ
  pub bithash_mask : ℕ

abbrev pub no_target : TargetBlock
no_target = record { rsum = record { a = 0; b = 0 }; checksum = [] }

abbrev pub target_at : BlockMatcher → ℕ → TargetBlock
target_at m id = get_or m.targets id no_target

abbrev pub is_known_at : BlockMatcher → ℕ → Bool
is_known_at m id = get_or m.known_blocks id true

unfoldable pub calc_hash : BlockMatcher → ℕ → ℕ
calc_hash m block_id =
    let target = target_at m block_id in
    if ltb 1 m.hash_lengths.seq_matches
    then bit_xor target.rsum.b (
        shl32
          (if ltb (block_id + 1) (length m.targets) then (target_at m (block_id + 1)).rsum.b else 0)
          m.hash_func_shift)
    else bit_xor target.rsum.b (shl32 target.rsum.a m.hash_func_shift)

-- The walk along one chain of `remove_block_from_hash`. Chains ascend, so as many rounds as there
-- are blocks are enough.
pub unlink : ℕ → ℕ → ℕ → ℕ → ℕ → BlockMatcher → BlockMatcher
unlink zero id bucket prev curr m = m
unlink (suc rounds) id bucket prev curr m =
    let rest = unlink rounds id bucket curr (get_or m.hash_next curr hash_empty) m in
    if curr == hash_empty
    then m
    else if curr == id
    then (if prev == hash_empty
        then record m { hash_table = set m.hash_table bucket (get_or m.hash_next id hash_empty) }
        else record m { hash_next = set m.hash_next prev (get_or m.hash_next id hash_empty) })
    else rest

unfoldable pub remove_block_from_hash : ℕ → BlockMatcher → BlockMatcher
unfolding unlink
remove_block_from_hash id m =
    let bucket = bit_and (calc_hash m id) m.hash_mask in
    unlink (length m.targets) id bucket hash_empty (get_or m.hash_table bucket hash_empty) m

unfoldable pub mark_known : ℕ → BlockMatcher → BlockMatcher
mark_known block_id m = if is_known_at m block_id then m else record m {
  known_blocks = set m.known_blocks block_id true;
  known_count = m.known_count + 1;
}

unfoldable pub is_block_known : BlockMatcher → ℕ → Bool
is_block_known m block_id =
    ltb block_id (length m.known_blocks) && get_or m.known_blocks block_id false

unfoldable pub blocks_todo : BlockMatcher → ℕ
blocks_todo m = length m.known_blocks - m.known_count

unfoldable pub is_complete : BlockMatcher → Bool
is_complete m = m.known_count == length m.known_blocks

unfoldable pub total_blocks : BlockMatcher → ℕ
total_blocks m = length m.targets
