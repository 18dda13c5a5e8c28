-- ===== src/Matcher/Submit/Keeps.antt =====
-- `submit_blocks` of src/matcher.rs: what it keeps.
use zsync_rs.Prelude.{
  ℕ, zero, suc, ◌+◌, ◌*◌, ◌/◌, ◌<◌, ◌≡◌, refl, inl, inr, Bool, true, false, List, [], ◌∷◌,
}
use zsync_rs.Prelude.{length, get_or, set, slice, leb, get_or-set_self, Bool-cases}
use zsync_rs.Control.{Bytes}
use zsync_rs.Matcher.{BlockMatcher, target_at, mark_known}
use zsync_rs.Matcher.Chain.{same_checksum}
use zsync_rs.Matcher.Known.{IsValid, mark_known-IsValid, mark_known_lem}
use zsync_rs.Matcher.Submit.{submit_loop, submit_blocks}

abbrev pub IsKnown : BlockMatcher → ℕ → Type 0
IsKnown m id = get_or m.known_blocks id false ≡ true

set_known :
    (known : List Bool) (i k : ℕ)
    → get_or known k false ≡ true
    → get_or (set known i true) k false ≡ true
set_known [] i k h = h
set_known (x ∷ known) zero zero h = refl
set_known (x ∷ known) zero (suc k) h = h
set_known (x ∷ known) (suc i) zero h = h
set_known (x ∷ known) (suc i) (suc k) h = set_known known i k h

pub mark-IsKnown_self :
    (id : ℕ) (m : BlockMatcher) → id < length m.known_blocks → IsKnown (mark_known id m) id
mark-IsKnown_self id m h =
    rw ((mark_known_lem id m).1) (get_or-set_self m.known_blocks id true false h)

mark-IsKnown : (id j : ℕ) (m : BlockMatcher) → IsKnown m j → IsKnown (mark_known id m) j
mark-IsKnown id j m h = rw ((mark_known_lem id m).1) (set_known m.known_blocks id j h)

module _ (md4 : Bytes → Bytes) (input : Bytes) (block_start : ℕ) where
  pub submit_loop_mono :
      (rounds i : ℕ) (m : BlockMatcher) (id : ℕ)
      → IsKnown m id
      → IsKnown (submit_loop md4 rounds i input block_start m).0 id
  unfolding submit_loop
  submit_loop_mono zero i m id h = h
  submit_loop_mono (suc rounds) i m id h =
      elim (Bool-cases (leb (length m.targets) (block_start + i))) [
        | inl past ↦ rw past h
        | inr inside ↦
            elim (Bool-cases (same_checksum m sum (target_at m (block_start + i)).checksum)) [
              | inr bad ↦ rw (inside, bad) h
              | inl good ↦
                  rw (inside, good)
                    (submit_loop_mono rounds (i + 1) (mark_known (block_start + i) m) id
                      (mark-IsKnown (block_start + i) id m h))
            ]
      ]
    where
      sum : Bytes
      sum = md4 (slice input (i * m.blocksize) ((i + 1) * m.blocksize))

  submit_loop-IsValid :
      (rounds i : ℕ) (m : BlockMatcher)
      → IsValid m
      → IsValid (submit_loop md4 rounds i input block_start m).0
  unfolding submit_loop
  submit_loop-IsValid zero i m v = v
  submit_loop-IsValid (suc rounds) i m v =
      elim (Bool-cases (leb (length m.targets) (block_start + i))) [
        | inl past ↦ rw past v
        | inr inside ↦
            elim (Bool-cases (same_checksum m sum (target_at m (block_start + i)).checksum)) [
              | inr bad ↦ rw (inside, bad) v
              | inl good ↦
                  rw (inside, good)
                    (submit_loop-IsValid rounds (i + 1) (mark_known (block_start + i) m)
                      (mark_known-IsValid (block_start + i) v))
            ]
      ]
    where
      sum : Bytes
      sum = md4 (slice input (i * m.blocksize) ((i + 1) * m.blocksize))

  -- Submitting any data at any block leaves a valid matcher valid.
  pub submit_blocks-IsValid :
      (m : BlockMatcher) → IsValid m → IsValid (submit_blocks md4 input block_start m).0
  unfolding submit_blocks
  submit_blocks-IsValid m v = submit_loop-IsValid (length input / m.blocksize) 0 m v

  pub submit_blocks_mono :
      (m : BlockMatcher) (id : ℕ)
      → IsKnown m id
      → IsKnown (submit_blocks md4 input block_start m).0 id
  unfolding submit_blocks
  submit_blocks_mono m id h = submit_loop_mono (length input / m.blocksize) 0 m id h
