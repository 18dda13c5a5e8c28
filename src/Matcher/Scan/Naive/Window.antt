-- ===== src/Matcher/Scan/Naive/Window.antt =====
-- The rolling checksums of `scan_chunk` of src/matcher.rs stay those of the window.
use native.Mathlib.Nat.{one-le-pow}
use mathlib.Core.Path.{subst}
use zsync_rs.Prelude.{
  ℕ, suc, ◌+◌, ◌-◌, ◌*◌, ◌^◌, ◌≤◌, ◌<◌, ◌≡◌, sym, ap, ap₂, ◌∙◌, inl, inr, arith, List,
}
use zsync_rs.Prelude.{
  length, get_or, take, drop, slice, ltb, ltb→lt, if◌then◌else◌, All, Bool-cases,
}
use zsync_rs.Prelude.{length-take, length-drop, slice-front, slice-back, All-get_or}
use zsync_rs.Rsum.{Rsum, calc_rsum_block, roll}
use zsync_rs.Rsum.Roll.{roll-calc_rsum_block}
use zsync_rs.Control.{Bytes}
use zsync_rs.Matcher.{BlockMatcher}
use zsync_rs.Matcher.Scan.{Scan, context, is_pairs, block_rsum, slide}
use zsync_rs.Matcher.Scan.Naive.{second_rsum, refresh}

module _ (md4 : Bytes → Bytes) (m : BlockMatcher) (input : Bytes) (base_offset : ℕ)
    (some_blocks : 1 ≤ m.hash_lengths.seq_matches) (bytes : All (λ x. x < 256) input)
    (size : m.blocksize ≡ 2 ^ m.blockshift) where
  abbrev pub limit : ℕ
  limit = length input - context m

  abbrev pub fresh : ℕ → Rsum
  fresh = block_rsum md4 m input base_offset

  roll-slice :
      (k x n : ℕ)
      → suc n ≡ 2 ^ k
      → x + 1 + suc n ≤ length input
      → roll k
          (calc_rsum_block (slice input x (x + suc n)))
          (get_or input x 0)
          (get_or input (x + suc n) 0)
        ≡ calc_rsum_block (slice input (x + 1) (x + 1 + suc n))
  roll-slice k x n e h =
      rw (slice-front 0 x n input (omega arith), slice-back 0 x n input (omega arith))
        (roll-calc_rsum_block k (get_or input x 0) (get_or input (x + suc n) 0) inner
          (omega (arith, length-take n (drop (suc x) input), length-drop (suc x) input, e))
          (All-get_or (λ b. b < 256) 0 input x (omega arith) bytes))
    where
      inner : List ℕ
      inner = take n (drop (suc x) input)

  -- One step of a window that stays inside the input.
  roll-block_rsum :
      (x : ℕ)
      → x + 1 + m.blocksize ≤ length input
      → roll m.blockshift (fresh x) (get_or input x 0) (get_or input (x + m.blocksize) 0)
        ≡ fresh (x + 1)
  roll-block_rsum x h =
      subst
        (λ b.
          roll m.blockshift (calc_rsum_block (slice input x (x + b))) (get_or input x 0)
            (get_or input (x + b) 0)
          ≡ calc_rsum_block (slice input (x + 1) (x + 1 + b)))
        (sym e) (roll-slice m.blockshift x (m.blocksize - 1) (sym e ∙ size) (omega (arith, e)))
    where
      e : m.blocksize ≡ suc (m.blocksize - 1)
      e = omega (arith, size, one-le-pow m.blockshift 2 (omega arith))

  -- The checksums are those of the window.
  abbrev pub IsFresh : Scan → Type 0
  IsFresh s = (s.r0 ≡ fresh s.x) × (s.r1 ≡ second_rsum md4 m input base_offset s.x)

  roll-second :
      (x : ℕ) (r1 : Rsum)
      → x < limit
      → r1 ≡ second_rsum md4 m input base_offset x
      → (if is_pairs md4 m input base_offset
          then roll m.blockshift r1
              (get_or input (x + m.blocksize) 0)
              (get_or input (x + m.blocksize * 2) 0)
          else r1)
        ≡ second_rsum md4 m input base_offset (x + 1)
  unfolding second_rsum
  roll-second x r1 lt f = elim (Bool-cases (ltb 1 m.hash_lengths.seq_matches)) [
    | inr single ↦ rw (f, single)
    | inl pairs ↦
        rw (f, pairs, twice, next)
          (roll-block_rsum (x + m.blocksize) (pair_fits (ltb→lt _ _ pairs)))
  ]
    where
      twice : x + m.blocksize * 2 ≡ x + m.blocksize + m.blocksize
      twice = omega arith

      next : x + 1 + m.blocksize ≡ x + m.blocksize + 1
      next = omega arith

      pair_fits : 2 ≤ m.hash_lengths.seq_matches → x + m.blocksize + 1 + m.blocksize ≤ length input
      pair_fits two = grind arith

  pub slide-refresh :
      (s : Scan)
      → s.x < limit
      → IsFresh s
      → slide md4 m input base_offset s ≡ refresh md4 m input base_offset (record s { x = s.x + 1 })
  unfolding slide refresh
  slide-refresh s lt f =
      ap₂ (λ a b. record s { x = s.x + 1; r0 = a; r1 = b })
        (ap (λ r. roll m.blockshift r (get_or input s.x 0) (get_or input (s.x + m.blocksize) 0)) f.0
          ∙ roll-block_rsum s.x fits)
        (roll-second s.x s.r1 lt f.1)
    where
      fits : s.x + 1 + m.blocksize ≤ length input
      fits = grind arith
