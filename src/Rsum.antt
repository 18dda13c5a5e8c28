-- ===== src/Rsum.antt =====
-- src/rsum.rs, the rolling checksum of a block, and the update of it that
-- `ScanState::scan_chunk` of src/matcher.rs makes when its window slides by one byte.
mod Tests
pub mod Roll
use zsync_rs.Prelude.{ℕ, ◌-◌, ◌*◌, ◌%◌, ◌^◌, List, [], ◌∷◌, ltb, if◌then◌else◌}
use zsync_rs.Prelude.{u16, wrapping_add, wrapping_sub}

pub record Rsum : Type 0 where
  pub a : ℕ
  pub b : ℕ

-- The loop over the bytes of the block.
rsum_loop : ℕ → ℕ → List ℕ → Rsum
rsum_loop a b [] = record { a = a; b = b }
rsum_loop a b (byte ∷ rest) = let a' = wrapping_add a byte in rsum_loop a' (wrapping_add b a') rest

unfoldable pub calc_rsum_block : List ℕ → Rsum
unfolding rsum_loop
calc_rsum_block block = rsum_loop 0 0 block

-- `u16::checked_shl` gives `None` from a shift of 16 on, hence the 0.
unfoldable pub shifted_out : ℕ → ℕ → ℕ
shifted_out byte blockshift = if ltb blockshift 16 then u16 (byte * 2 ^ blockshift) else 0

-- The window loses `oc` at its front and gains `nc` at its end.
unfoldable pub roll : ℕ → Rsum → ℕ → ℕ → Rsum
unfolding shifted_out
roll blockshift r oc nc =
    let a = wrapping_sub (wrapping_add r.a nc) oc in
    record { a = a; b = wrapping_sub (wrapping_add r.b a) (shifted_out oc blockshift) }
