-- ===== src/Matcher/Scan/Finish.antt =====
-- The loops of `scan_chunk` in src/matcher.rs end by their conditions, not for want of fuel.
use zsync_rs.Prelude.{ℕ, zero, suc, ◌+◌, ◌-◌, ◌*◌, ◌≤◌, ◌<◌, ◌≡◌, refl, arith, ◌⊎◌, inl, inr}
use zsync_rs.Prelude.{
  false, ltb, ltb→lt, ◌==◌, Bool-cases, Option-cases, Option, none, some, length,
}
use zsync_rs.Control.{Bytes}
use zsync_rs.Matcher.{BlockMatcher}
use zsync_rs.Matcher.Chain.{match_chain}
use zsync_rs.Matcher.Scan.{
  Scan, context, hint_holds, use_hint, try_hint, try_chain, slide, seek, skip, round, scan_loop,
  scan_start,
}

one_le_mul : (a b : ℕ) → 1 ≤ a → 1 ≤ b → 1 ≤ a * b
one_le_mul a b h k = grind arith

module _ (md4 : Bytes → Bytes) (m : BlockMatcher) (input : Bytes) (base_offset : ℕ) where
  use_hint-x : (hint : Option ℕ) (s : Scan) → (use_hint md4 m input base_offset hint s).0.x ≡ s.x
  unfolding use_hint
  use_hint-x none s = refl
  use_hint-x (some id) s = elim (Bool-cases (hint_holds md4 m input base_offset id s)) [
    | inl holds ↦ rw holds refl
    | inr fails ↦ rw fails refl
  ]

  try_chain-x : (s : Scan) → (try_chain md4 m input base_offset s).0.x ≡ s.x
  unfolding try_chain
  try_chain-x s =
      elim (Option-cases
        (match_chain md4 m input s.x base_offset s.r0 s.r1 none none s.matched_blocks).0) [
          | inl nothing ↦ rw (nothing, try_chain) refl
          | inr (found, e) ↦ rw (e, try_chain) refl
        ]

  -- `seek` stops at the limit, or at a window that matches.
  seek_stops :
      (rounds x_limit : ℕ) (s : Scan)
      → x_limit ≤ s.x + rounds
      → (s.x ≤ (seek md4 m input base_offset rounds x_limit s).0.x)
        × (x_limit ≤ (seek md4 m input base_offset rounds x_limit s).0.x
            ⊎ 1 ≤ (seek md4 m input base_offset rounds x_limit s).1)
  unfolding seek slide
  seek_stops zero x_limit s h = (omega arith, inl (omega arith))
  seek_stops (suc rounds) x_limit s h = elim (Bool-cases (ltb s.x x_limit)) [
    | inr past ↦ rw past (omega arith, inl (ground arith))
    | inl before ↦ elim (Bool-cases ((try_chain md4 m input base_offset s).1 == 0)) [
      | inl nothing ↦
          let (ahead, stops) =
            seek_stops rounds x_limit
              (slide md4 m input base_offset (try_chain md4 m input base_offset s).0)
              (omega (arith, try_chain-x s, h)) in
          rw (before, nothing) (omega (arith, try_chain-x s, ahead), stops)
      | inr found ↦ rw (before, found) (omega (arith, try_chain-x s), inr (ground arith))
    ]
  ]

  skip-x :
      (x_limit matched : ℕ) (s : Scan)
      → (skip md4 m input base_offset x_limit matched s).x ≡ s.x + m.blocksize * matched
  unfolding skip
  skip-x x_limit matched s = elim (Bool-cases (ltb (s.x + m.blocksize * matched) x_limit)) [
    | inl inside ↦ rw inside refl
    | inr past ↦ rw past refl
  ]

  round-lt :
      (rounds x_limit : ℕ) (s : Scan)
      → 1 ≤ m.blocksize
      → s.x < x_limit
      → x_limit ≤ s.x + rounds
      → s.x < (round md4 m input base_offset rounds x_limit s).x
  unfolding round try_hint
  round-lt rounds x_limit s size before fuel = elim (Bool-cases (hinted.1 == 0)) [
    | inl unhinted ↦ elim (Bool-cases (sought.1 == 0)) [
      | inl nothing ↦
          rw (unhinted, nothing) (ground (arith, seek_stops rounds x_limit hinted.0 room, here))
      | inr found ↦
          rw (unhinted, found) (moved sought (seek_stops rounds x_limit hinted.0 room).0 found)
    ]
    | inr used ↦ rw (used, used) (moved hinted (omega arith) used)
  ]
    where
      hinted : Scan × ℕ
      hinted = try_hint md4 m input base_offset s

      sought : Scan × ℕ
      sought = seek md4 m input base_offset rounds x_limit hinted.0

      here : hinted.0.x ≡ s.x
      here = use_hint-x s.next_match_id (record s { next_match_id = none })

      room : x_limit ≤ hinted.0.x + rounds
      room = omega (arith, here, fuel)

      moved :
          (found : Scan × ℕ)
          → hinted.0.x ≤ found.0.x
          → (found.1 == 0) ≡ false
          → s.x < (skip md4 m input base_offset x_limit found.1 found.0).x
      moved found ahead some_blocks =
          let far : 1 ≤ found.1 = ground arith in
          omega (
            arith,
            skip-x x_limit found.1 found.0,
            here,
            ahead,
            one_le_mul m.blocksize found.1 size far,
          )

  scan_loop_stops :
      (rounds x_limit : ℕ) (s : Scan)
      → 1 ≤ m.blocksize
      → x_limit ≤ s.x + rounds
      → x_limit ≤ (scan_loop md4 m input base_offset rounds x_limit s).x
  unfolding scan_loop
  scan_loop_stops zero x_limit s size fuel = omega arith
  scan_loop_stops (suc rounds) x_limit s size fuel = elim (Bool-cases (ltb s.x x_limit)) [
    | inl before ↦ rw before (
        scan_loop_stops rounds x_limit (round md4 m input base_offset (suc rounds) x_limit s) size
          (omega (arith, round-lt (suc rounds) x_limit s size (ltb→lt s.x x_limit before) fuel)))
    | inr past ↦ rw past (ground arith)
  ]

  -- Given a block size of at least one, the scan of an input ends with its window at the limit or
  -- past it: the rounds that `scan_chunk` allows are enough.
  pub scan_loop-x :
      1 ≤ m.blocksize
      → length input - context m
        ≤ (scan_loop md4 m input base_offset
            (length input - context m)
            (length input - context m)
            (scan_start md4 m input base_offset)).x
  unfolding scan_start
  scan_loop-x size = scan_loop_stops _ _ _ size (omega arith)
