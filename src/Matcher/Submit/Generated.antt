-- ===== src/Matcher/Submit/Generated.antt =====
-- A control file of `generate` in src/control.rs against the matcher of src/matcher.rs: the blocks of
-- the input are accepted.
use mathlib.Core.List.{append-nil}
use native.Mathlib.Nat.{div_self}
use zsync_rs.Prelude.{bytes_eq_refl}
use zsync_rs.Prelude.{ℕ, ◌+◌, ◌-◌, ◌*◌, ◌/◌, ◌≤◌, ◌<◌, ◌≡◌, refl, sym, ap, ◌∙◌, arith, inl, inr}
use zsync_rs.Prelude.{
  true, [], ◌++◌, replicate, length, get_or, slice, take, take-length_append, leb, Bool-cases,
  Option,
}
use zsync_rs.Control.{Bytes, BlockChecksum, ControlFile}
use zsync_rs.Control.Generate.{
  Logarithms, Generated, generate, control_of, count_blocks, padded_block, checksum_block,
}
use zsync_rs.Control.Generate.Blocks.{
  length-padded_block, padded_block-slice, length-checksum_blocks, get_or-checksum_blocks,
  generate-control_of,
}
use zsync_rs.Control.Header.{max_blocks}
use zsync_rs.Matcher.{BlockMatcher, target_at, no_target}
use zsync_rs.Matcher.New.{new, target_of}
use zsync_rs.Matcher.New.Target.{new-targets, get_or-map}
use zsync_rs.Matcher.Chain.{same_checksum}
use zsync_rs.Matcher.Submit.{submit_loop, submit_blocks}

slice_all : (n : ℕ) (xs : Bytes) → length xs ≡ n → slice xs (0 * n) ((0 + 1) * n) ≡ xs
slice_all n xs h =
    let front : 0 * n ≡ 0 = omega arith in
    let back : (0 + 1) * n ≡ n = omega arith in
    let whole : n - 0 ≡ length xs = omega (arith, h) in
    rw (front, back, whole)
      (ap (λ t. take (length xs) t) (sym (append-nil xs)) ∙ take-length_append xs [])

-- One block of data with the digest of its block of the target is accepted.
submit_block :
    (md4 : Bytes → Bytes) (m : BlockMatcher) (block : Bytes) (i : ℕ)
    → 1 ≤ m.blocksize
    → length block ≡ m.blocksize
    → (target_at m i).checksum ≡ md4 block
    → (submit_blocks md4 block i m).1 ≡ true
unfolding submit_blocks submit_loop same_checksum
submit_block md4 m block i size full e =
    let one : length block / m.blocksize ≡ 1 = rw full (div_self {n = m.blocksize} size) in
    let here : i + 0 ≡ i = omega arith in
    rw
      (
        one,
        here,
        slice_all m.blocksize block full,
        e,
        bytes_eq_refl (take m.hash_lengths.checksum_bytes (md4 block)),
      )
      (elim (Bool-cases (leb (length m.targets) i)) [
        | inl past ↦ rw past refl
        | inr inside ↦ rw inside refl
      ])

module _ (md4 sha1 : Bytes → Bytes) (logs : Logarithms) (input filename url : Bytes) where
  -- The digest that the matcher of a generated control file holds of a block.
  generated-checksum :
      (blocksize i : ℕ)
      → i < count_blocks input blocksize
      → (target_at (new (control_of md4 sha1 logs input filename url blocksize)) i).checksum
        ≡ md4 (padded_block input blocksize i)
  unfolding control_of target_of checksum_block
  generated-checksum blocksize i h =
      ap (λ ts. (get_or ts i no_target).checksum) (new-targets control).0
      ∙ ap (λ t. t.checksum)
          (get_or-map _ control.block_checksums i no_target nothing (
            omega (
              arith,
              h,
              length-checksum_blocks md4 sha1 logs input blocksize 0 (count_blocks input blocksize),
            )))
      ∙ ap (λ b. b.checksum)
          (get_or-checksum_blocks md4 sha1 logs input blocksize 0 (count_blocks input blocksize) i
            nothing h)
      ∙ ap (λ k. md4 (padded_block input blocksize k)) from_zero
    where
      from_zero : 0 + i ≡ i
      from_zero = omega arith

      control : ControlFile
      control = control_of md4 sha1 logs input filename url blocksize

      nothing : BlockChecksum
      nothing = record { rsum = record { a = 0; b = 0 }; checksum = [] }

  -- From a control file that `generate` makes of an input, with at most 2^26 blocks, a new matcher
  -- accepts every block of that input: the bytes from its offset on, up to the block size, and
  -- where the input ends before, filled up with zeros.
  pub generate-submit_blocks :
      (requested : Option ℕ) (control : ControlFile) (i : ℕ)
      → generate md4 sha1 logs input filename url requested ≡ Generated.ok control
      → length control.block_checksums ≤ max_blocks
      → i < length control.block_checksums
      → let row = slice input (i * control.blocksize) ((i + 1) * control.blocksize) in
        (submit_blocks md4 (row ++ replicate (control.blocksize - length row) 0) i (new control)).1
        ≡ true
  unfolding control_of
  generate-submit_blocks requested control i h few inside =
      let (blocksize, size, _, _, e) =
        generate-control_of md4 sha1 logs input filename url requested control h in
      let made = control_of md4 sha1 logs input filename url blocksize in
      let lt : i < count_blocks input blocksize = omega (
        arith,
        (rw e at inside),
        length-checksum_blocks md4 sha1 logs input blocksize 0 (count_blocks input blocksize),
      ) in
      let kept = (new-targets made).1 in
      rw (e, ← (padded_block-slice input blocksize size i lt))
        (submit_block md4 (new made) (padded_block input blocksize i) i (omega (arith, kept, size))
          (length-padded_block input blocksize size i lt ∙ sym kept)
          (generated-checksum blocksize i lt))
