-- ===== src/Matcher/New/Target.antt =====
-- The weak test of src/matcher.rs on the checksums that a control file keeps (src/control.rs).
use zsync_rs.Prelude.{
  ℕ, ◌%◌, ◌^◌, ◌≤◌, ◌<◌, ◌≡◌, true, arith, ltb, ◌==◌, if◌then◌else◌, bit_and-zero, bit_and-mask,
}
use zsync_rs.Rsum.{Rsum}
use zsync_rs.Prelude.{zero, suc, refl, List, [], ◌∷◌, map, length, get_or, replicate, false}
use zsync_rs.Control.{Bytes, BlockChecksum, ControlFile}
use zsync_rs.Control.Records.Trip.{kept_rsum}
use zsync_rs.Matcher.{BlockMatcher, TargetBlock}
use zsync_rs.Matcher.New.{new, empty_matcher, index_blocks, index_block, target_of, rsum_a_mask}
use zsync_rs.Matcher.Chain.{rsum_match}

-- With one to four rsum bytes and a first sum of 16 bits, a window with the very sums of a block
-- passes the weak test against the record of that block, in a matcher with the mask for that many
-- bytes, except where the record has one byte and the second sum does not fit it: that byte is
-- compared with the whole second sum of the window.
pub rsum_match-kept :
    (m : BlockMatcher) (rsum_bytes : ℕ) (rsum : Rsum) (checksum : Bytes)
    → 1 ≤ rsum_bytes
    → rsum_bytes ≤ 4
    → rsum.a < 2 ^ 16
    → m.rsum_a_mask ≡ rsum_a_mask rsum_bytes
    → let target =
        target_of
          (rsum_a_mask rsum_bytes)
          (record { rsum = kept_rsum rsum_bytes rsum; checksum = checksum }) in
      rsum_match m target.rsum rsum ≡ (if rsum_bytes == 1 then ltb rsum.b 256 else true)
unfolding rsum_match target_of kept_rsum rsum_a_mask
rsum_match-kept m rsum_bytes rsum checksum lo hi word mask = ground (
  arith,
  bit_and-zero 0,
  bit_and-zero rsum.a,
  bit_and-mask 8 rsum.a,
  bit_and-mask 8 (rsum.a % 256),
)

-- Indexing changes neither the targets nor the lengths, and marks nothing.
index_blocks-keeps :
    (n : ℕ) (m : BlockMatcher)
    → ((index_blocks n m).targets ≡ m.targets)
      × ((index_blocks n m).blocksize ≡ m.blocksize)
      × ((index_blocks n m).hash_lengths ≡ m.hash_lengths)
      × ((index_blocks n m).known_blocks ≡ m.known_blocks)
unfolding index_blocks index_block
index_blocks-keeps zero m = (refl, refl, refl, refl)
index_blocks-keeps (suc id) m = index_blocks-keeps id (index_block id m)

-- What a new matcher takes from the control file.
pub new-targets :
    (control : ControlFile)
    → ((new control).targets
        ≡ map (target_of (rsum_a_mask control.hash_lengths.rsum_bytes)) control.block_checksums)
      × ((new control).blocksize ≡ control.blocksize)
      × ((new control).hash_lengths ≡ control.hash_lengths)
      × ((new control).known_blocks ≡ replicate (length control.block_checksums) false)
unfolding new empty_matcher
new-targets control = index_blocks-keeps (length control.block_checksums) (empty_matcher control)

pub get_or-map :
    (f : BlockChecksum → TargetBlock) (xs : List BlockChecksum) (i : ℕ) (d : TargetBlock)
    (d' : BlockChecksum)
    → i < length xs
    → get_or (map f xs) i d ≡ f (get_or xs i d')
get_or-map f [] i d d' h = absurd (omega arith)
get_or-map f (x ∷ xs) zero d d' h = refl
get_or-map f (x ∷ xs) (suc i) d d' h = get_or-map f xs i d d' (omega arith)
