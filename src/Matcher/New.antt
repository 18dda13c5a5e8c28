-- ===== src/Matcher/New.antt =====
-- `BlockMatcher::new` of src/matcher.rs.
pub mod Valid
pub mod Found
pub mod Complete
pub mod Target
use Prim.Native.Nat.{bit_and, bit_or}
use zsync_rs.Prelude.{
  ℕ, zero, suc, ◌+◌, ◌-◌, ◌*◌, ◌/◌, ◌%◌, ◌^◌, ◌<◌, ◌≤◌, ◌≡◌, min, Bool, false, List, map,
}
use zsync_rs.Prelude.{
  length, get_or, set, replicate, ltb, leb, ◌==◌, if◌then◌else◌, ◌&&◌, u32, bit32, arith,
}
use zsync_rs.Control.{BlockChecksum, ControlFile}
use zsync_rs.Matcher.{BlockMatcher, TargetBlock, hash_empty, calc_hash}

unfoldable pub rsum_a_mask : ℕ → ℕ
rsum_a_mask rsum_bytes = if leb rsum_bytes 2 then 0 else if rsum_bytes == 3 then 0x00ff else 0xffff

unfoldable pub target_of : ℕ → BlockChecksum → TargetBlock
target_of mask bc = record {
  rsum = record { a = bit_and bc.rsum.a mask; b = bc.rsum.b };
  checksum = bc.checksum;
}

pub avail_bits : ℕ → ℕ → ℕ
avail_bits seq_matches rsum_bytes =
    let rsum_bits = rsum_bytes * 8 in if ltb 1 seq_matches then min rsum_bits 16 * 2 else rsum_bits

-- `while hash_bits > 5 && (1 << (hash_bits - 1)) > num_blocks { hash_bits -= 1 }`
pub shrink_bits : ℕ → ℕ → ℕ
shrink_bits num_blocks zero = zero
shrink_bits num_blocks (suc n) =
    let rest = shrink_bits num_blocks n in
    if ltb 5 (suc n) && ltb (u32 num_blocks) (bit32 n) then rest else suc n

-- `BITHASH_BITS` more than the hash, up to what the checksums give.
pub bithash_bits_total : ℕ → ℕ → ℕ
bithash_bits_total hash_bits avail = min (hash_bits + 3) avail

-- The subtraction of 16 is on `u32`: below 16 bits it wraps, where a debug build panics.
hash_func_shift : ℕ → ℕ → ℕ → ℕ
hash_func_shift seq_matches avail total =
    if ltb 1 seq_matches && ltb avail 24
    then total - avail / 2
    else total - u32 (avail + 2 ^ 32 - 16)

-- One round of the indexing loop.
pub index_block : ℕ → BlockMatcher → BlockMatcher
index_block id m =
    let h = calc_hash m id in
    let bucket = bit_and h m.hash_mask in
    let bh = bit_and h m.bithash_mask in
    record m {
      hash_next = set m.hash_next id (get_or m.hash_table bucket hash_empty);
      hash_table = set m.hash_table bucket (u32 id);
      bithash = set m.bithash (bh / 8) (bit_or (get_or m.bithash (bh / 8) 0) (2 ^ bit_and bh 7));
    }

-- `for id in (0..num_blocks).rev()`
pub index_blocks : ℕ → BlockMatcher → BlockMatcher
index_blocks zero m = m
index_blocks (suc id) m = index_blocks id (index_block id m)

-- `trailing_zeros` of a power of two; the fuel is the number itself.
trailing_zeros : ℕ → ℕ → ℕ
trailing_zeros zero n = 0
trailing_zeros (suc f) n = let rest = trailing_zeros f (n / 2) in if n % 2 == 0 then rest + 1 else 0

pub empty_matcher : ControlFile → BlockMatcher
unfolding rsum_a_mask target_of avail_bits shrink_bits bithash_bits_total hash_func_shift
    trailing_zeros
empty_matcher control =
    let num_blocks = length control.block_checksums in
    let lengths = control.hash_lengths in
    let mask = rsum_a_mask lengths.rsum_bytes in
    let avail = avail_bits lengths.seq_matches lengths.rsum_bytes in
    let hash_bits = shrink_bits num_blocks avail in
    let total = bithash_bits_total hash_bits avail in
    record {
      blocksize = control.blocksize;
      blockshift = trailing_zeros 64 control.blocksize;
      hash_lengths = lengths;
      rsum_a_mask = mask;
      hash_func_shift = hash_func_shift lengths.seq_matches avail total;
      targets = map (target_of mask) control.block_checksums;
      known_blocks = replicate num_blocks false;
      known_count = 0;
      hash_table = replicate (bit32 hash_bits) hash_empty;
      hash_next = replicate num_blocks hash_empty;
      hash_mask = bit32 hash_bits - 1;
      bithash = replicate (bit32 total / 8 + 1) 0;
      bithash_mask = bit32 total - 1;
    }

unfoldable pub new : ControlFile → BlockMatcher
unfolding empty_matcher index_blocks index_block
new control = index_blocks (length control.block_checksums) (empty_matcher control)
