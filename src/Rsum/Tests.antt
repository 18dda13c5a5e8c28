-- ===== src/Rsum/Tests.antt =====
-- The checksums of the unit tests of src/rsum.rs, and a window that slides.
use zsync_rs.Prelude.{ℕ, ◌≡◌, refl, arith, List, [], ◌∷◌, ◌++◌}
use zsync_rs.Rsum.{calc_rsum_block, roll}
use zsync_rs.Rsum.Roll.{roll-calc_rsum_block}

rsum_empty : calc_rsum_block [] ≡ record { a = 0; b = 0 }
unfolding calc_rsum_block
rsum_empty = refl

rsum_basic : calc_rsum_block (1 ∷ 2 ∷ 3 ∷ 4 ∷ []) ≡ record { a = 10; b = 20 }
unfolding calc_rsum_block
rsum_basic = refl

abbrev bytes : List ℕ
bytes = 200 ∷ 100 ∷ 255 ∷ []

roll-calc_rsum_block_example :
    roll 2 (calc_rsum_block (7 ∷ bytes)) 7 9 ≡ calc_rsum_block (bytes ++ (9 ∷ []))
roll-calc_rsum_block_example = roll-calc_rsum_block 2 7 9 bytes refl (omega arith)
