-- ===== src/Control/Generate/Lengths.antt =====
-- The hash lengths that `calculate_hash_lengths` of src/control.rs gives are in range.
use zsync_rs.Prelude.{ℕ, ◌≤◌, arith}
use zsync_rs.Prelude.{ltb, if◌then◌else◌}
use zsync_rs.Control.Records.Trip.{IsAccepted}
use zsync_rs.Control.Generate.{Logarithms, clamp, calculate_hash_lengths}

clamp-bounds : (n lo hi : ℕ) → lo ≤ hi → (lo ≤ clamp n lo hi) × (clamp n lo hi ≤ hi)
unfolding clamp
clamp-bounds n lo hi h = (ground arith, ground arith)

pub calculate_hash_lengths-IsAccepted :
    (logs : Logarithms) (file_length blocksize : ℕ)
    → IsAccepted (calculate_hash_lengths logs file_length blocksize)
unfolding calculate_hash_lengths
calculate_hash_lengths-IsAccepted logs file_length blocksize =
    let (rsum_low, rsum_high) =
      clamp-bounds (logs.rsum_estimate file_length blocksize seq_matches) 2 4 (omega arith) in
    let (checksum_low, checksum_high) =
      clamp-bounds (logs.checksum_estimate file_length blocksize seq_matches) 4 16 (omega arith) in
    record {
      seq_range = (ground arith, ground arith);
      rsum_range = (omega (arith, rsum_low), rsum_high);
      checksum_range = (omega (arith, checksum_low), checksum_high);
    }
  where
    seq_matches : ℕ
    seq_matches = if ltb blocksize file_length then 2 else 1
