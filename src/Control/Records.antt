-- ===== src/Control/Records.antt =====
-- The block records of a control file: `read_block_checksums`, `rsum_to_bytes` and the loop of
-- `ControlFile::write` in src/control.rs. A reader is the list of the bytes that it still holds.
mod Tests
pub mod Trip
use zsync_rs.Prelude.{ℕ, zero, suc, ◌+◌, ◌-◌, ◌*◌, ◌/◌, ◌%◌, List, [], ◌∷◌, ◌++◌}
use zsync_rs.Prelude.{
  length, get_or, take, drop, slice, replicate, ltb, ◌==◌, if◌then◌else◌, Option, none, some,
}
use zsync_rs.Rsum.{Rsum}
use zsync_rs.Control.{Bytes, BlockChecksum, HashLengths, ControlFile}

-- `u16::to_be_bytes` and `u16::from_be_bytes`.
abbrev pub to_be_bytes : ℕ → Bytes
to_be_bytes n = n / 256 % 256 ∷ n % 256 ∷ []

abbrev pub from_be_bytes : ℕ → ℕ → ℕ
from_be_bytes hi lo = hi * 256 + lo

unfoldable pub rsum_to_bytes : Rsum → ℕ → Bytes
rsum_to_bytes rsum rsum_bytes =
    if rsum_bytes == 1
    then rsum.b % 256 ∷ []
    else if rsum_bytes == 2
    then to_be_bytes rsum.b
    else if rsum_bytes == 3
    then rsum.a % 256 ∷ to_be_bytes rsum.b
    else if rsum_bytes == 4
    then to_be_bytes rsum.a ++ to_be_bytes rsum.b
    else replicate rsum_bytes 0

-- The `match rsum_bytes` of the reading loop.
unfoldable pub decode_rsum : ℕ → Bytes → Rsum
decode_rsum rsum_bytes buf =
    let at_i = λ (i : ℕ). get_or buf i 0 in
    if rsum_bytes == 1
    then record { a = 0; b = at_i 0 }
    else if rsum_bytes == 2
    then record { a = 0; b = from_be_bytes (at_i 0) (at_i 1) }
    else if rsum_bytes == 3
    then record { a = at_i 0; b = from_be_bytes (at_i 1) (at_i 2) }
    else if rsum_bytes == 4
    then record { a = from_be_bytes (at_i 0) (at_i 1); b = from_be_bytes (at_i 2) (at_i 3) }
    else record { a = 0; b = 0 }

-- One record: the digest fills the front of 16 zero bytes.
unfoldable pub decode_block : HashLengths → Bytes → BlockChecksum
decode_block lengths buf = record {
  rsum = decode_rsum lengths.rsum_bytes buf;
  checksum =
      slice buf lengths.rsum_bytes (lengths.rsum_bytes + lengths.checksum_bytes)
      ++ replicate (16 - lengths.checksum_bytes) 0;
}

abbrev pub entry_size : HashLengths → ℕ
entry_size lengths = lengths.rsum_bytes + lengths.checksum_bytes

-- `none` is the error of `read_exact` at an early end of the input.
unfoldable pub read_block_checksums : HashLengths → ℕ → Bytes → Option (List BlockChecksum)
unfolding decode_block
read_block_checksums lengths zero reader = some []
read_block_checksums lengths (suc num_blocks) reader =
    let n = entry_size lengths in
    let rest = read_block_checksums lengths num_blocks (drop n reader) in
    if ltb (length reader) n then none else elim rest [
      | none ↦ none
      | some blocks ↦ some (decode_block lengths (take n reader) ∷ blocks)
    ]

-- The records that `ControlFile::write` writes.
unfoldable pub write_blocks : HashLengths → List BlockChecksum → Bytes
write_blocks lengths [] = []
write_blocks lengths (block ∷ blocks) =
    rsum_to_bytes block.rsum lengths.rsum_bytes
    ++ (take lengths.checksum_bytes block.checksum ++ write_blocks lengths blocks)
