-- ===== src/Matcher/Scan/Sound.antt =====
-- `scan_chunk` of src/matcher.rs reports only windows that verify.
use zsync_rs.Prelude.{
  ℕ, zero, suc, ◌+◌, ◌-◌, ◌*◌, ◌≤◌, ◌<◌, ◌≡◌, refl, inl, inr, arith, true, [], ◌∷◌, ◌++◌,
}
use zsync_rs.Prelude.{
  length, ltb, ltb→lt, ◌==◌, Option, none, some, All, All-append, Bool-cases, Option-cases,
}
use zsync_rs.Control.{Bytes}
use zsync_rs.Matcher.{BlockMatcher, target_at}
use zsync_rs.Matcher.Chain.{Matches, window, same_checksum, match_chain}
use zsync_rs.Matcher.Chain.Sound.{IsIndexed, IsMatch, same_checksum-SameDigest, match_chain-IsMatch}
use zsync_rs.Matcher.Scan.{
  Scan, context, hint_holds, use_hint, try_hint, try_chain, slide, seek, skip, round, scan_loop,
  scan_start, scan_chunk,
}

-- A window before the limit lies in the input, and so does the one after it in pair mode.
pub window_fits :
    (m : BlockMatcher) (input : Bytes) (x : ℕ)
    → 1 ≤ m.hash_lengths.seq_matches
    → x < length input - context m
    → (x + m.blocksize ≤ length input)
      × (ltb 1 m.hash_lengths.seq_matches ≡ true → x + m.blocksize + m.blocksize ≤ length input)
window_fits m input x h lt = (grind arith, λ p. pair (ltb→lt _ _ p))
  where
    pair : 2 ≤ m.hash_lengths.seq_matches → x + m.blocksize + m.blocksize ≤ length input
    pair two = grind arith

module _ (md4 : Bytes → Bytes) (m : BlockMatcher) (input : Bytes) (base_offset : ℕ)
    (ix : IsIndexed m) (some_blocks : 1 ≤ m.hash_lengths.seq_matches) where
  abbrev IsGood : Scan → Type 0
  IsGood s = All (IsMatch md4 m input base_offset) s.matched_blocks

  abbrev limit : ℕ
  limit = length input - context m

  hint_holds_parts :
      (hint_id : ℕ) (s : Scan)
      → hint_holds md4 m input base_offset hint_id s ≡ true
      → (hint_id < length m.targets)
        × (same_checksum m (md4 (window md4 m input s.x base_offset)) (target_at m hint_id).checksum
            ≡ true)
  unfolding hint_holds
  hint_holds_parts hint_id s h = ground arith

  use_hint-IsGood :
      (hint : Option ℕ) (s : Scan)
      → s.x < limit
      → IsGood s
      → IsGood (use_hint md4 m input base_offset hint s).0
  unfolding use_hint
  use_hint-IsGood none s lt g = g
  use_hint-IsGood (some hint_id) s lt g =
      elim (Bool-cases (hint_holds md4 m input base_offset hint_id s)) [
        | inr no_hint ↦ rw no_hint g
        | inl hint ↦ rw hint (taken (hint_holds_parts hint_id s hint))
      ]
    where
      fits :
          (s.x + m.blocksize ≤ length input)
          × (ltb 1 m.hash_lengths.seq_matches ≡ true
              → s.x + m.blocksize + m.blocksize ≤ length input)
      fits = window_fits m input s.x some_blocks lt

      taken :
          (hint_id < length m.targets)
            × (same_checksum m
                  (md4 (window md4 m input s.x base_offset))
                  (target_at m hint_id).checksum
                ≡ true)
          → All
              (IsMatch md4 m input base_offset)
              (match_chain md4 m input s.x base_offset s.r0 s.r1
                (some hint_id)
                (some (md4 (window md4 m input s.x base_offset)))
                (s.matched_blocks ++ ((hint_id, base_offset + s.x) ∷ []))).1
      taken h =
          match_chain-IsMatch md4 m input s.x base_offset fits.0 fits.1 ix s.r0 s.r1 _ _ _ refl (
            All-append (IsMatch md4 m input base_offset) s.matched_blocks _ g (
              (
                s.x,
                refl,
                record {
                  in_targets = h.0;
                  in_input = fits.0;
                  digest = same_checksum-SameDigest m _ _ h.1;
                },
              ),
              tt,
            ))

  try_hint-IsGood :
      (s : Scan) → s.x < limit → IsGood s → IsGood (try_hint md4 m input base_offset s).0
  unfolding try_hint
  try_hint-IsGood s lt g = use_hint-IsGood s.next_match_id (record s { next_match_id = none }) lt g

  try_chain-IsGood :
      (s : Scan) → s.x < limit → IsGood s → IsGood (try_chain md4 m input base_offset s).0
  unfolding try_chain
  try_chain-IsGood s lt g = elim (Option-cases found.0) [
    | inl e ↦ rw (e, try_chain) matches
    | inr (hit, e) ↦ rw (e, try_chain) matches
  ]
    where
      found : Option (ℕ × Option ℕ) × Matches
      found = match_chain md4 m input s.x base_offset s.r0 s.r1 none none s.matched_blocks

      matches : All (IsMatch md4 m input base_offset) found.1
      matches =
          let fits = window_fits m input s.x some_blocks lt in
          match_chain-IsMatch md4 m input s.x base_offset fits.0 fits.1 ix s.r0 s.r1 none none _
            refl g

  seek-IsGood :
      (rounds : ℕ) (s : Scan) → IsGood s → IsGood (seek md4 m input base_offset rounds limit s).0
  unfolding seek slide
  seek-IsGood zero s g = g
  seek-IsGood (suc rounds) s g = elim (Bool-cases (ltb s.x limit)) [
    | inr stop ↦ rw stop g
    | inl go ↦ elim (Bool-cases ((try_chain md4 m input base_offset s).1 == 0)) [
      | inl miss ↦
          rw (go, miss)
            (seek-IsGood rounds
              (slide md4 m input base_offset (try_chain md4 m input base_offset s).0)
              (try_chain-IsGood s (ltb→lt _ _ go) g))
      | inr hit ↦ rw (go, hit) (try_chain-IsGood s (ltb→lt _ _ go) g)
    ]
  ]

  skip-IsGood : (n : ℕ) (s : Scan) → IsGood s → IsGood (skip md4 m input base_offset limit n s)
  unfolding skip
  skip-IsGood n s g = elim (Bool-cases (ltb (s.x + m.blocksize * n) limit)) [
    | inl e ↦ rw e g
    | inr e ↦ rw e g
  ]

  round-IsGood :
      (rounds : ℕ) (s : Scan)
      → s.x < limit
      → IsGood s
      → IsGood (round md4 m input base_offset rounds limit s)
  unfolding round
  round-IsGood rounds s lt g = elim (Bool-cases (hinted.1 == 0)) [
    | inr hit ↦ rw (hit, hit) (skip-IsGood hinted.1 hinted.0 (try_hint-IsGood s lt g))
    | inl miss ↦ elim (Bool-cases (found.1 == 0)) [
      | inl none_left ↦ rw (miss, none_left) sought
      | inr hit ↦ rw (miss, hit) (skip-IsGood found.1 found.0 sought)
    ]
  ]
    where
      hinted : Scan × ℕ
      hinted = try_hint md4 m input base_offset s

      found : Scan × ℕ
      found = seek md4 m input base_offset rounds limit hinted.0

      sought : IsGood found.0
      sought = seek-IsGood rounds hinted.0 (try_hint-IsGood s lt g)

  scan_loop-IsGood :
      (rounds : ℕ) (s : Scan) → IsGood s → IsGood (scan_loop md4 m input base_offset rounds limit s)
  unfolding scan_loop
  scan_loop-IsGood zero s g = g
  scan_loop-IsGood (suc rounds) s g = elim (Bool-cases (ltb s.x limit)) [
    | inr stop ↦ rw stop g
    | inl go ↦ rw go (
        scan_loop-IsGood rounds (round md4 m input base_offset (suc rounds) limit s)
          (round-IsGood (suc rounds) s (ltb→lt _ _ go) g))
  ]

  -- Whatever the rolling checksums let through, every pair that a scan reports is a block of the
  -- target and an offset of the input where a whole window has the digest of that block.
  pub scan_chunk-IsMatch :
      All (IsMatch md4 m input base_offset) (scan_chunk md4 m input base_offset)
  unfolding scan_chunk
  scan_chunk-IsMatch = elim (Bool-cases (ltb (length input) (context m))) [
    | inl short ↦ rw short tt
    | inr long ↦ rw long (scan_loop-IsGood limit (scan_start md4 m input base_offset) tt)
  ]
