-- ===== src/Matcher/Scan/Naive/Agree.antt =====
-- `scan_chunk` of src/matcher.rs finds what the scan finds that computes every checksum afresh.
use zsync_rs.Prelude.{
  ℕ, zero, suc, ◌+◌, ◌-◌, ◌*◌, ◌^◌, ◌≤◌, ◌<◌, ◌≡◌, refl, sym, ap, ◌∙◌, inl, inr, arith, true, false,
}
use zsync_rs.Prelude.{
  length, ltb, ltb→lt, ◌==◌, ==_iff, if◌then◌else◌, Option, none, some, All, Bool-cases,
  Option-cases,
}
use zsync_rs.Rsum.{Rsum}
use zsync_rs.Control.{Bytes}
use zsync_rs.Matcher.{BlockMatcher}
use zsync_rs.Matcher.Chain.{match_chain}
use zsync_rs.Matcher.Scan.{
  Scan, context, block_rsum, hint_holds, use_hint, try_hint, try_chain, seek, skip, round,
  scan_loop, scan_start, scan_chunk,
}
use zsync_rs.Matcher.Scan.Naive.{
  second_rsum, refresh, naive_seek, naive_skip, naive_round, naive_loop, naive_scan,
}
use zsync_rs.Matcher.Scan.Naive.Window.{slide-refresh}

module _ (md4 : Bytes → Bytes) (m : BlockMatcher) (input : Bytes) (base_offset : ℕ)
    (some_blocks : 1 ≤ m.hash_lengths.seq_matches) (bytes : All (λ x. x < 256) input)
    (size : m.blocksize ≡ 2 ^ m.blockshift) where
  abbrev limit : ℕ
  limit = length input - context m

  abbrev fresh : ℕ → Rsum
  fresh = block_rsum md4 m input base_offset

  abbrev IsFresh : Scan → Type 0
  IsFresh s = (s.r0 ≡ fresh s.x) × (s.r1 ≡ second_rsum md4 m input base_offset s.x)

  -- What a look at the chain or at the hint leaves of the state.
  use_hint-keeps :
      (hint : Option ℕ) (s : Scan)
      → ((use_hint md4 m input base_offset hint s).0.x ≡ s.x)
        × ((use_hint md4 m input base_offset hint s).0.r0 ≡ s.r0)
        × ((use_hint md4 m input base_offset hint s).0.r1 ≡ s.r1)
  unfolding use_hint
  use_hint-keeps none s = (refl, refl, refl)
  use_hint-keeps (some id) s = elim (Bool-cases (hint_holds md4 m input base_offset id s)) [
    | inl e ↦ rw e (refl, refl, refl)
    | inr e ↦ rw e (refl, refl, refl)
  ]

  use_hint-IsFresh :
      (hint : Option ℕ) (s : Scan) → IsFresh s → IsFresh (use_hint md4 m input base_offset hint s).0
  use_hint-IsFresh hint s f =
      let keeps = use_hint-keeps hint s in
      (
        keeps.1 ∙ f.0 ∙ ap fresh (sym keeps.0),
        keeps.2 ∙ f.1 ∙ ap (second_rsum md4 m input base_offset) (sym keeps.0),
      )

  try_chain-IsFresh : (s : Scan) → IsFresh s → IsFresh (try_chain md4 m input base_offset s).0
  unfolding try_chain
  try_chain-IsFresh s f =
      elim (Option-cases
        (match_chain md4 m input s.x base_offset s.r0 s.r1 none none s.matched_blocks).0) [
          | inl e ↦ rw (e, try_chain) f
          | inr (hit, e) ↦ rw (e, try_chain) f
        ]

  try_chain-x : (s : Scan) → (try_chain md4 m input base_offset s).0.x ≡ s.x
  unfolding try_chain
  try_chain-x s =
      elim (Option-cases
        (match_chain md4 m input s.x base_offset s.r0 s.r1 none none s.matched_blocks).0) [
          | inl e ↦ rw (e, try_chain)
          | inr (hit, e) ↦ rw (e, try_chain)
        ]

  refresh-IsFresh : (s : Scan) → IsFresh (refresh md4 m input base_offset s)
  unfolding refresh
  refresh-IsFresh s = (refl, refl)

  second_single :
      (x : ℕ)
      → ltb 1 m.hash_lengths.seq_matches ≡ false
      → second_rsum md4 m input base_offset x ≡ record { a = 0; b = 0 }
  unfolding second_rsum
  second_single x e = rw e

  second_pair :
      (x : ℕ)
      → ltb 1 m.hash_lengths.seq_matches ≡ true
      → second_rsum md4 m input base_offset x ≡ fresh (x + m.blocksize)
  unfolding second_rsum
  second_pair x e = rw e

  -- In pair mode a lone match takes the second checksum over as the first.
  skip-naive_skip :
      (n : ℕ) (s : Scan)
      → IsFresh s
      → skip md4 m input base_offset limit n s ≡ naive_skip md4 m input base_offset limit n s
  unfolding skip naive_skip refresh second_rsum
  skip-naive_skip n s f = elim (Bool-cases (ltb (s.x + m.blocksize * n) limit)) [
    | inr past ↦ rw past
    | inl inside ↦ elim (Bool-cases (ltb 1 m.hash_lengths.seq_matches)) [
      | inr single ↦
          rw (inside, single)
            (ap
              (λ r. record s {
                x = s.x + m.blocksize * n;
                r0 = fresh (s.x + m.blocksize * n);
                r1 = r;
              })
              (f.1 ∙ second_single s.x single))
      | inl pairs ↦ elim (Bool-cases (n == 1)) [
        | inr two ↦ rw (inside, pairs, two)
        | inl one ↦
            rw (inside, pairs, one)
              (ap
                (λ r. record s {
                  x = s.x + m.blocksize * n;
                  r0 = r;
                  r1 = fresh (s.x + m.blocksize * n + m.blocksize);
                })
                (f.1 ∙ second_pair s.x pairs ∙ ap fresh (step n ((==_iff n 1).0 one))))
      ]
    ]
  ]
    where
      step : (k : ℕ) → k ≡ 1 → s.x + m.blocksize ≡ s.x + m.blocksize * k
      step k e = rw e (omega arith)

  seek-naive_seek :
      (rounds : ℕ) (s : Scan)
      → IsFresh s
      → seek md4 m input base_offset rounds limit s
        ≡ naive_seek md4 m input base_offset rounds limit s
  unfolding seek naive_seek
  seek-naive_seek zero s f = refl
  seek-naive_seek (suc rounds) s f = elim (Bool-cases (ltb s.x limit)) [
    | inr stop ↦ rw stop
    | inl go ↦ elim (Bool-cases ((try_chain md4 m input base_offset s).1 == 0)) [
      | inr hit ↦ rw (go, hit)
      | inl miss ↦
          rw (go, miss)
            (ap (seek md4 m input base_offset rounds limit) (
                slide-refresh md4 m input base_offset some_blocks bytes size
                  (try_chain md4 m input base_offset s).0 (rw try_chain-x (ltb→lt _ _ go))
                  (try_chain-IsFresh s f))
              ∙ seek-naive_seek rounds (refresh md4 m input base_offset _) (refresh-IsFresh _))
    ]
  ]

  naive_seek-IsFresh :
      (rounds : ℕ) (s : Scan)
      → IsFresh s
      → IsFresh (naive_seek md4 m input base_offset rounds limit s).0
  unfolding naive_seek
  naive_seek-IsFresh zero s f = f
  naive_seek-IsFresh (suc rounds) s f = elim (Bool-cases (ltb s.x limit)) [
    | inr stop ↦ rw stop f
    | inl go ↦ elim (Bool-cases ((try_chain md4 m input base_offset s).1 == 0)) [
      | inr hit ↦ rw (go, hit) (try_chain-IsFresh s f)
      | inl miss ↦
          rw (go, miss)
            (naive_seek-IsFresh rounds (refresh md4 m input base_offset _) (refresh-IsFresh _))
    ]
  ]

  naive_skip-IsFresh :
      (n : ℕ) (s : Scan)
      → (naive_skip md4 m input base_offset limit n s).x < limit
      → IsFresh (naive_skip md4 m input base_offset limit n s)
  unfolding naive_skip
  naive_skip-IsFresh n s lt = elim (Bool-cases (ltb (s.x + m.blocksize * n) limit)) [
    | inl inside ↦ rw inside (refresh-IsFresh _)
    | inr past ↦ absurd (beyond past (rw past at lt))
  ]
    where
      beyond : ltb (s.x + m.blocksize * n) limit ≡ false → s.x + m.blocksize * n < limit → ⊥
      beyond e h = ground arith

  round-naive_round :
      (rounds : ℕ) (s : Scan)
      → IsFresh s
      → round md4 m input base_offset rounds limit s
        ≡ naive_round md4 m input base_offset rounds limit s
  unfolding round naive_round try_hint
  round-naive_round rounds s f = elim (Bool-cases (hinted.1 == 0)) [
    | inr hit ↦ rw (hit, hit) (skip-naive_skip hinted.1 hinted.0 hinted_fresh)
    | inl miss ↦
        rw (miss, seek-naive_seek rounds hinted.0 hinted_fresh)
          (elim (Bool-cases (found.1 == 0)) [
            | inl none_left ↦ rw none_left
            | inr hit ↦ rw hit (skip-naive_skip found.1 found.0 found_fresh)
          ])
  ]
    where
      hinted : Scan × ℕ
      hinted = try_hint md4 m input base_offset s

      hinted_fresh : IsFresh hinted.0
      hinted_fresh = use_hint-IsFresh s.next_match_id (record s { next_match_id = none }) f

      found : Scan × ℕ
      found = naive_seek md4 m input base_offset rounds limit hinted.0

      found_fresh : IsFresh found.0
      found_fresh = naive_seek-IsFresh rounds hinted.0 hinted_fresh

  naive_round-IsFresh :
      (rounds : ℕ) (s : Scan)
      → IsFresh s
      → (naive_round md4 m input base_offset rounds limit s).x < limit
      → IsFresh (naive_round md4 m input base_offset rounds limit s)
  unfolding naive_round try_hint
  naive_round-IsFresh rounds s f = elim (Bool-cases (hinted.1 == 0)) [
    | inr hit ↦ rw (hit, hit) (naive_skip-IsFresh hinted.1 hinted.0)
    | inl miss ↦ elim (Bool-cases (found.1 == 0)) [
      | inl none_left ↦ rw (miss, none_left) (λ _. found_fresh)
      | inr hit ↦ rw (miss, hit) (naive_skip-IsFresh found.1 found.0)
    ]
  ]
    where
      hinted : Scan × ℕ
      hinted = try_hint md4 m input base_offset s

      found : Scan × ℕ
      found = naive_seek md4 m input base_offset rounds limit hinted.0

      found_fresh : IsFresh found.0
      found_fresh =
          naive_seek-IsFresh rounds hinted.0
            (use_hint-IsFresh s.next_match_id (record s { next_match_id = none }) f)

  loop-naive_loop :
      (rounds : ℕ) (s : Scan)
      → (s.x < limit → IsFresh s)
      → scan_loop md4 m input base_offset rounds limit s
        ≡ naive_loop md4 m input base_offset rounds limit s
  unfolding scan_loop naive_loop
  loop-naive_loop zero s f = refl
  loop-naive_loop (suc rounds) s f = elim (Bool-cases (ltb s.x limit)) [
    | inr stop ↦ rw stop
    | inl go ↦
        rw (go, round-naive_round (suc rounds) s (f (ltb→lt _ _ go)))
          (loop-naive_loop rounds (naive_round md4 m input base_offset (suc rounds) limit s)
            (naive_round-IsFresh (suc rounds) s (f (ltb→lt _ _ go))))
  ]

  start-IsFresh : IsFresh (scan_start md4 m input base_offset)
  unfolding scan_start second_rsum
  start-IsFresh =
      let e : m.blocksize ≡ 0 + m.blocksize = omega arith in
      (
        refl,
        ap (λ b. if ltb 1 m.hash_lengths.seq_matches then fresh b else record { a = 0; b = 0 }) e,
      )

  -- On an input of bytes, with a block size of `2 ^ blockshift` and `seq_matches` at least one, the
  -- scan that slides its two checksums finds the same pairs, in the same order, as the scan that
  -- computes them from scratch everywhere.
  pub scan_chunk-naive_scan :
      scan_chunk md4 m input base_offset ≡ naive_scan md4 m input base_offset
  unfolding scan_chunk naive_scan
  scan_chunk-naive_scan = elim (Bool-cases (ltb (length input) (context m))) [
    | inl short ↦ rw short
    | inr long ↦ rw long (
        ap (λ s. s.matched_blocks)
          (loop-naive_loop limit (scan_start md4 m input base_offset) (λ _. start-IsFresh)))
  ]
