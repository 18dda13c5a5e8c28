-- ===== src/Control/Records/Tests.antt =====
-- Two blocks through the records of a control file.
use zsync_rs.Prelude.{◌≡◌, refl, arith, List, [], ◌∷◌, ◌++◌, length, map, replicate, some}
use zsync_rs.Control.{BlockChecksum, HashLengths}
use zsync_rs.Control.Records.{rsum_to_bytes, read_block_checksums, write_blocks}
use zsync_rs.Control.Records.Trip.{IsAccepted, kept, read_block_checksums-write_blocks}

test_rsum_to_bytes : rsum_to_bytes (record { a = 0x1234; b = 0x5678 }) 3 ≡ 0x34 ∷ 0x56 ∷ 0x78 ∷ []
unfolding rsum_to_bytes
test_rsum_to_bytes = refl

abbrev lengths : HashLengths
lengths = record { seq_matches = 2; rsum_bytes = 3; checksum_bytes = 5 }

lengths-IsAccepted : IsAccepted lengths
lengths-IsAccepted = record {
  seq_range = (omega arith, omega arith);
  rsum_range = (omega arith, omega arith);
  checksum_range = (omega arith, omega arith);
}

abbrev blocks : List BlockChecksum
blocks =
    record { rsum = record { a = 0x1234; b = 0x5678 }; checksum = replicate 16 7 }
    ∷ record { rsum = record { a = 0xffff; b = 1 }; checksum = replicate 16 8 }
    ∷ []

read_block_checksums-write_blocks_example :
    read_block_checksums lengths (length blocks) (write_blocks lengths blocks ++ (9 ∷ []))
    ≡ some (map (kept lengths) blocks)
read_block_checksums-write_blocks_example =
    read_block_checksums-write_blocks lengths lengths-IsAccepted blocks (9 ∷ []) (ground arith)
