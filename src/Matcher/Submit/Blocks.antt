-- ===== src/Matcher/Submit/Blocks.antt =====
-- `submit_blocks` of src/matcher.rs: which blocks it makes known, and what its answer means.
use mathlib.Core.Path.{subst}
use native.Mathlib.Decide.{ℕ_discrete}
use zsync_rs.Prelude.{bytes_eq_refl}
use zsync_rs.Prelude.{
  ℕ, zero, suc, ◌+◌, ◌*◌, ◌/◌, ◌≤◌, ◌<◌, ◌≡◌, ◌≢◌, sym, ap, ◌∙◌, ◌⊎◌, inl, inr, arith, true, false,
}
use zsync_rs.Prelude.{length, get_or, take, slice, leb, length-set, get_or-set_ne, Bool-cases}
use zsync_rs.Control.{Bytes}
use zsync_rs.Matcher.{BlockMatcher, target_at, mark_known}
use zsync_rs.Matcher.Chain.{same_checksum}
use zsync_rs.Matcher.Chain.Sound.{SameDigest, same_checksum-SameDigest}
use zsync_rs.Matcher.Known.{IsValid, mark_known_lem}
use zsync_rs.Matcher.Submit.{submit_loop, submit_blocks}
use zsync_rs.Matcher.Submit.Keeps.{IsKnown, mark-IsKnown_self, submit_loop_mono}

pub not_SameDigest :
    (m : BlockMatcher) (sum checksum : Bytes)
    → same_checksum m sum checksum ≡ false
    → ¬ SameDigest m sum checksum
unfolding same_checksum
not_SameDigest m sum checksum h e =
    cc (rw e at h, bytes_eq_refl (take m.hash_lengths.checksum_bytes checksum))

module _ (md4 : Bytes → Bytes) (input : Bytes) (block_start : ℕ) where
  -- The `i`-th block of the input has the digest of its block of the target.
  abbrev pub Holds : BlockMatcher → ℕ → Type 0
  Holds m i =
      SameDigest m (md4 (slice input (i * m.blocksize) ((i + 1) * m.blocksize)))
        (target_at m (block_start + i)).checksum

  -- Marking a block changes neither the targets nor the lengths.
  mark-Holds : (id : ℕ) (m : BlockMatcher) (i : ℕ) → Holds (mark_known id m) i ≡ Holds m i
  mark-Holds id m i = let e = mark_known_lem id m in rw (e.0, e.2, e.3)

  mark-IsKnown_ne :
      (id j : ℕ) (m : BlockMatcher) → id ≢ j → IsKnown (mark_known id m) j → IsKnown m j
  mark-IsKnown_ne id j m ne h =
      sym (get_or-set_ne m.known_blocks id j true false ne)
      ∙ ap (λ known. get_or known j false) (sym (mark_known_lem id m).1)
      ∙ h

  abbrev pub Verified : BlockMatcher → ℕ → ℕ → ℕ → Type 0
  Verified m lo hi id =
      (j : ℕ) × (id ≡ block_start + j) × (lo ≤ j) × (j < hi) × (id < length m.targets) × Holds m j

  -- One round of the loop that marked block `block_start + i`.
  Verified-round :
      (rounds i : ℕ) (m : BlockMatcher) (id : ℕ)
      → block_start + i < length m.targets
      → Holds m i
      → (IsKnown (mark_known (block_start + i) m) id
          ⊎ Verified (mark_known (block_start + i) m) (i + 1) (i + 1 + rounds) id)
      → IsKnown m id ⊎ Verified m i (i + suc rounds) id
  Verified-round rounds i m id inside holds (inr (j, e, above, below, in_targets, digest)) = inr (
    j,
    e,
    omega arith,
    omega arith,
    rw ((mark_known_lem (block_start + i) m).0) at in_targets,
    rw (mark-Holds (block_start + i) m j) at digest,
  )
  Verified-round rounds i m id inside holds (inl known) = elim (ℕ_discrete (block_start + i) id) [
    | yes same ↦ inr (i, sym same, omega arith, omega arith, omega arith, holds)
    | no other ↦ inl (mark-IsKnown_ne (block_start + i) id m other known)
  ]

  submit_loop_sound :
      (rounds i : ℕ) (m : BlockMatcher) (id : ℕ)
      → IsKnown (submit_loop md4 rounds i input block_start m).0 id
      → IsKnown m id ⊎ Verified m i (i + rounds) id
  unfolding submit_loop
  submit_loop_sound zero i m id h = inl h
  submit_loop_sound (suc rounds) i m id h =
      elim (Bool-cases (leb (length m.targets) (block_start + i))) [
        | inl past ↦ inl (rw past at h)
        | inr inside ↦
            elim (Bool-cases (same_checksum m sum (target_at m (block_start + i)).checksum)) [
              | inr bad ↦ inl (rw (inside, bad) at h)
              | inl good ↦
                  Verified-round rounds i m id (ground arith)
                    (same_checksum-SameDigest m sum (target_at m (block_start + i)).checksum good)
                    (submit_loop_sound rounds (i + 1) (mark_known (block_start + i) m) id
                      (rw (inside, good) at h))
            ]
      ]
    where
      sum : Bytes
      sum = md4 (slice input (i * m.blocksize) ((i + 1) * m.blocksize))

  -- A block that `submit_blocks` leaves known was known before, or it is one of the submitted
  -- blocks, lies in the target, and its data has the digest of the control file.
  pub submit_blocks_sound :
      (m : BlockMatcher) (id : ℕ)
      → IsKnown (submit_blocks md4 input block_start m).0 id
      → IsKnown m id ⊎ Verified m 0 (length input / m.blocksize) id
  unfolding submit_blocks
  submit_blocks_sound m id h =
      let n = length input / m.blocksize in
      let e : 0 + n ≡ n = omega arith in
      subst (λ hi. IsKnown m id ⊎ Verified m 0 hi id) e (submit_loop_sound n 0 m id h)

  mark-length :
      (id : ℕ) (m : BlockMatcher)
      → length m.known_blocks ≡ length m.targets
      → length (mark_known id m).known_blocks ≡ length (mark_known id m).targets
  mark-length id m e =
      let k = mark_known_lem id m in rw (k.0, k.1) (length-set m.known_blocks id true ∙ e)

  submit_loop-true :
      (rounds i : ℕ) (m : BlockMatcher)
      → length m.known_blocks ≡ length m.targets
      → (submit_loop md4 rounds i input block_start m).1 ≡ true
      → (j : ℕ) → i ≤ j
      → j < i + rounds
      → block_start + j < length m.targets
      → IsKnown (submit_loop md4 rounds i input block_start m).0 (block_start + j) × Holds m j
  unfolding submit_loop
  submit_loop-true zero i m e h j above below inside = absurd (omega arith)
  submit_loop-true (suc rounds) i m e h j above below inside =
      elim (Bool-cases (leb (length m.targets) (block_start + i))) [
        | inl past ↦ absurd (ground arith)
        | inr here ↦
            elim (Bool-cases (same_checksum m sum (target_at m (block_start + i)).checksum)) [
              | inr bad ↦ cc (rw (here, bad) at h)
              | inl good ↦
                  rw (here, good)
                    (elim (ℕ_discrete i j) [
                      | yes same ↦ rw (← same) (
                        submit_loop_mono md4 input block_start rounds (i + 1) marked
                            (block_start + i)
                            (mark-IsKnown_self (block_start + i) m (rw e (ground arith))),
                        same_checksum-SameDigest m sum (target_at m (block_start + i)).checksum
                            good,
                      )
                      | no other ↦
                          let rest =
                            submit_loop-true rounds (i + 1) marked
                              (mark-length (block_start + i) m e) (rw (here, good) at h) j
                              (omega arith) (omega arith)
                              (rw ((mark_known_lem (block_start + i) m).0) inside) in
                          (rest.0, rw (mark-Holds (block_start + i) m j) at (rest.1))
                    ])
            ]
      ]
    where
      marked : BlockMatcher
      marked = mark_known (block_start + i) m

      sum : Bytes
      sum = md4 (slice input (i * m.blocksize) ((i + 1) * m.blocksize))

  submit_loop-false :
      (rounds i : ℕ) (m : BlockMatcher)
      → (submit_loop md4 rounds i input block_start m).1 ≡ false
      → (j : ℕ) × (i ≤ j) × (j < i + rounds) × (block_start + j < length m.targets) × ¬ Holds m j
  unfolding submit_loop
  submit_loop-false zero i m h = absurd (cc)
  submit_loop-false (suc rounds) i m h =
      elim (Bool-cases (leb (length m.targets) (block_start + i))) [
        | inl past ↦ cc (rw past at h)
        | inr here ↦
            elim (Bool-cases (same_checksum m sum (target_at m (block_start + i)).checksum)) [
              | inr bad ↦ (
                i,
                omega arith,
                omega arith,
                ground arith,
                not_SameDigest m sum (target_at m (block_start + i)).checksum bad,
              )
              | inl good ↦
                  let (j, above, below, inside, wrong) =
                    submit_loop-false rounds (i + 1) (mark_known (block_start + i) m)
                      (rw (here, good) at h) in
                  (
                    j,
                    omega arith,
                    omega arith,
                    rw ((mark_known_lem (block_start + i) m).0) at inside,
                    rw (mark-Holds (block_start + i) m j) at wrong,
                  )
            ]
      ]
    where
      sum : Bytes
      sum = md4 (slice input (i * m.blocksize) ((i + 1) * m.blocksize))

  -- In a valid matcher, the answer `true` means that every submitted block that lies in the target
  -- is known and has the digest of the control file; the answer `false`, that one of them has
  -- another digest.
  pub submit_blocks-answer :
      (m : BlockMatcher)
      → IsValid m
      → ((submit_blocks md4 input block_start m).1 ≡ true
          → (j : ℕ) → j < length input / m.blocksize
          → block_start + j < length m.targets
          → IsKnown (submit_blocks md4 input block_start m).0 (block_start + j) × Holds m j)
        × ((submit_blocks md4 input block_start m).1 ≡ false
            → (j : ℕ) × (j < length input / m.blocksize)
              × (block_start + j < length m.targets)
              × ¬ Holds m j)
  unfolding submit_blocks
  submit_blocks-answer m v = (
    λ h j below inside.
        submit_loop-true (length input / m.blocksize) 0 m v.known_length h j (omega arith)
          (omega arith) inside,
    λ h.
        let (j, above, below, inside, wrong) =
          submit_loop-false (length input / m.blocksize) 0 m h in
        (j, omega arith, inside, wrong),
  )
