-- ===== src/Control/Generate.antt =====
-- `generate` of src/control.rs. The input is in memory, so that reading it does not fail. The hash
-- lengths are clamped estimates from logarithms in floating point, which are a parameter.
pub mod Blocks
pub mod Lengths
use zsync_rs.Prelude.{
  ℕ, zero, suc, ◌+◌, ◌-◌, ◌*◌, ◌/◌, ◌%◌, Bool, true, false, not, List, [], ◌∷◌, ◌++◌,
}
use zsync_rs.Prelude.{
  length, slice, replicate, ltb, leb, ◌==◌, if◌then◌else◌, ◌&&◌, ◌||◌, Option, none, some,
}
use zsync_rs.Rsum.{calc_rsum_block}
use zsync_rs.Control.{Bytes, max_blocksize, BlockChecksum, HashLengths, ControlFile}
use zsync_rs.Control.Hex.{hex_encode}

pub data Generated : Type 0 where
  ok : ControlFile → Generated
  empty_file invalid_blocksize : Generated

unfoldable pub auto_blocksize : ℕ → ℕ
auto_blocksize file_length = if ltb file_length 100000000 then 2048 else 4096

-- `usize::is_power_of_two`, with a round for each bit.
unfoldable pub is_power_of_two : ℕ → ℕ → Bool
is_power_of_two zero n = false
is_power_of_two (suc bits) n =
    let rest = is_power_of_two bits (n / 2) in
    if n == 1 then true else if ltb 0 n && (n % 2 == 0) then rest else false

-- `file_length.div_ceil(blocksize)`
abbrev pub count_blocks : Bytes → ℕ → ℕ
count_blocks input blocksize = (length input + (blocksize - 1)) / blocksize

abbrev pub block_len : Bytes → ℕ → ℕ → ℕ
block_len input blocksize i =
    let rem = length input % blocksize in
    if i == count_blocks input blocksize - 1
    then (if rem == 0 then blocksize else rem)
    else blocksize

-- The buffer of the `i`-th round, filled up with zeros.
unfoldable pub padded_block : Bytes → ℕ → ℕ → Bytes
padded_block input blocksize i =
    let n = block_len input blocksize i in
    slice input (i * blocksize) (i * blocksize + n) ++ replicate (blocksize - n) 0

-- What `calculate_hash_lengths` takes from logarithms in floating point: the two sizes as an `i32`,
-- before they are clamped, from the length of the file, the block size and `seq_matches`. Of a
-- negative number only that it is below the range is kept: it is 0.
pub record Logarithms : Type 0 where
  pub rsum_estimate : ℕ → ℕ → ℕ → ℕ
  pub checksum_estimate : ℕ → ℕ → ℕ → ℕ

-- `i32::clamp`
unfoldable pub clamp : ℕ → ℕ → ℕ → ℕ
clamp n lo hi = if ltb n lo then lo else if ltb hi n then hi else n

unfoldable pub calculate_hash_lengths : Logarithms → ℕ → ℕ → HashLengths
unfolding clamp
calculate_hash_lengths logs file_length blocksize =
    let seq_matches : ℕ = if ltb blocksize file_length then 2 else 1 in
    record {
      seq_matches = seq_matches;
      rsum_bytes = clamp (logs.rsum_estimate file_length blocksize seq_matches) 2 4;
      checksum_bytes = clamp (logs.checksum_estimate file_length blocksize seq_matches) 4 16;
    }

module _ (md4 sha1 : Bytes → Bytes) (logs : Logarithms) where
  unfoldable pub checksum_block : Bytes → BlockChecksum
  checksum_block buf = record { rsum = calc_rsum_block buf; checksum = md4 buf }

  -- `for i in 0..num_blocks`, from the `i`-th round on.
  unfoldable pub checksum_blocks : Bytes → ℕ → ℕ → ℕ → List BlockChecksum
  unfolding checksum_block
  checksum_blocks input blocksize i zero = []
  checksum_blocks input blocksize i (suc rounds) =
      checksum_block (padded_block input blocksize i)
      ∷ checksum_blocks input blocksize (i + 1) rounds

  -- The result for a block size that is accepted.
  unfoldable pub control_of : Bytes → Bytes → Bytes → ℕ → ControlFile
  unfolding checksum_blocks calculate_hash_lengths
  control_of input filename url blocksize = record {
    version = b'0' ∷ b'.' ∷ b'6' ∷ b'.' ∷ b'2' ∷ [];
    filename = some filename;
    mtime = none;
    blocksize = blocksize;
    file_length = length input;
    hash_lengths = calculate_hash_lengths logs (length input) blocksize;
    urls = url ∷ [];
    sha1 = some (hex_encode (sha1 input));
    block_checksums = checksum_blocks input blocksize 0 (count_blocks input blocksize);
  }

  unfoldable pub generate : Bytes → Bytes → Bytes → Option ℕ → Generated
  unfolding is_power_of_two control_of
  generate input filename url requested =
      let blocksize : ℕ = elim requested [
        | none ↦ auto_blocksize (length input)
        | some size ↦ size
      ] in
      if length input == 0
      then Generated.empty_file
      else if not (is_power_of_two 64 blocksize) || ltb max_blocksize blocksize
      then Generated.invalid_blocksize
      else Generated.ok (control_of input filename url blocksize)
