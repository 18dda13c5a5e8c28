-- ===== src/Matcher/Submit/Single.antt =====
-- `submit_blocks` of src/matcher.rs on the data of one block, as a download submits it.
use native.Mathlib.Nat.{div_self}
use zsync_rs.Prelude.{
  ℕ, ◌+◌, ◌-◌, ◌*◌, ◌/◌, ◌≤◌, ◌<◌, ◌≡◌, refl, ap, arith, inl, inr, true, false, length, take, slice,
  leb, if◌then◌else◌, Bool-cases, [], ◌∷◌,
}
use zsync_rs.Control.{Bytes}
use zsync_rs.Matcher.{BlockMatcher, target_at, is_known_at, mark_known}
use zsync_rs.Matcher.Chain.{same_checksum}
use zsync_rs.Matcher.Submit.{submit_loop, submit_blocks}

take_all : (n : ℕ) (xs : Bytes) → length xs ≡ n → take n xs ≡ xs
take_all n xs h = rw (← h) (take-length xs)
  where
    take-length : (ys : Bytes) → take (length ys) ys ≡ ys
    take-length [] = refl
    take-length (y ∷ ys) = ap (λ t. y ∷ t) (take-length ys)

-- One block of the target is marked if it has the digest of the control file, and refused otherwise.
pub submit_blocks_single :
    (md4 : Bytes → Bytes) (m : BlockMatcher) (block : Bytes) (id : ℕ)
    → 1 ≤ m.blocksize
    → length block ≡ m.blocksize
    → id < length m.targets
    → submit_blocks md4 block id m ≡ (
        if same_checksum m (md4 block) (target_at m id).checksum
        then (mark_known id m, true)
        else (m, false))
unfolding submit_blocks submit_loop
submit_blocks_single md4 m block id size full inside =
    let one : length block / m.blocksize ≡ 1 = rw full (div_self {n = m.blocksize} size) in
    let here : id + 0 ≡ id = omega arith in
    let below : leb (length m.targets) id ≡ false = ground arith in
    let whole : slice block (0 * m.blocksize) ((0 + 1) * m.blocksize) ≡ block = whole_slice in
    rw (one, here, below, whole) refl
  where
    whole_slice : slice block (0 * m.blocksize) ((0 + 1) * m.blocksize) ≡ block
    whole_slice =
        let start : 0 * m.blocksize ≡ 0 = omega arith in
        let end : (0 + 1) * m.blocksize ≡ m.blocksize = omega arith in
        rw (start, end) (take_all (m.blocksize - 0) block (omega (arith, full)))

-- An unknown block counts once if it verifies, and not otherwise.
pub submit_blocks_single_count :
    (md4 : Bytes → Bytes) (m : BlockMatcher) (block : Bytes) (id : ℕ)
    → 1 ≤ m.blocksize
    → length block ≡ m.blocksize
    → id < length m.targets
    → is_known_at m id ≡ false
    → let (m', verified) = submit_blocks md4 block id m in
      (m'.known_count ≡ m.known_count + (if verified then 1 else 0))
      × (m'.blocksize ≡ m.blocksize)
      × (length m'.targets ≡ length m.targets)
unfolding mark_known
submit_blocks_single_count md4 m block id size full inside unknown =
    elim (Bool-cases (same_checksum m (md4 block) (target_at m id).checksum)) [
      | inl same ↦
          rw (submit_blocks_single md4 m block id size full inside, same, unknown)
            (refl, refl, refl)
      | inr other ↦
          rw (submit_blocks_single md4 m block id size full inside, other) (omega arith, refl, refl)
    ]
