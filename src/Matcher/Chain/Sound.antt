-- ===== src/Matcher/Chain/Sound.antt =====
-- `match_chain` of src/matcher.rs records only windows whose digest is that of the block.
use Prim.Native.Nat.{bit_and}
use zsync_rs.Prelude.{bytes_eq-eq}
use zsync_rs.Prelude.{
  ℕ, zero, suc, ◌+◌, ◌*◌, ◌≤◌, ◌<◌, ◌≡◌, refl, ap, ◌∙◌, ◌⊎◌, inl, inr, arith, true, not, [], ◌∷◌,
  ◌++◌,
}
use zsync_rs.Prelude.{
  length, get_or, take, slice, ltb, ltb→lt, ◌==◌, ◌||◌, Option, none, All, All-append, Bool-cases,
}
use zsync_rs.Rsum.{Rsum}
use zsync_rs.Control.{Bytes}
use zsync_rs.Matcher.{BlockMatcher, target_at, hash_empty}
use zsync_rs.Matcher.Chain.{
  same_checksum, rsum_match, is_matched, unwrap_or, Matches, Walk, window, next_window, visit_pair,
  visit_single, visit, walk, match_chain, filter_bit, calc_hash_rolling,
}

-- The digests agree on the bytes that the control file stores.
abbrev pub SameDigest : BlockMatcher → Bytes → Bytes → Type 0
SameDigest m sum checksum =
    take m.hash_lengths.checksum_bytes sum ≡ take m.hash_lengths.checksum_bytes checksum

pub same_checksum-SameDigest :
    (m : BlockMatcher) (sum checksum : Bytes)
    → same_checksum m sum checksum ≡ true
    → SameDigest m sum checksum
unfolding same_checksum
same_checksum-SameDigest m sum checksum h = bytes_eq-eq _ _ h

-- A link of the table or of a chain: the end, or a block not before `lo`.
abbrev pub IsLink : BlockMatcher → ℕ → ℕ → Type 0
IsLink m lo v = (v ≡ hash_empty) ⊎ ((lo ≤ v) × (v < length m.targets))

-- The chains hold blocks of the target, in ascending order.
pub record IsIndexed (m : BlockMatcher) : Type 0 where
  pub table_links : (i : ℕ) → IsLink m 0 (get_or m.hash_table i hash_empty)
  pub next_links : (i : ℕ) → IsLink m (suc i) (get_or m.hash_next i hash_empty)

module _ (md4 : Bytes → Bytes) (m : BlockMatcher) (input : Bytes) where
  -- The window at `x` lies in the input and has the digest of block `id`.
  pub record Verifies (id x : ℕ) : Type 0 where
    pub in_targets : id < length m.targets
    pub in_input : x + m.blocksize ≤ length input
    pub digest : SameDigest m (md4 (slice input x (x + m.blocksize))) (target_at m id).checksum

  -- A pair of the result names a window that verifies, counted from `base_offset`.
  abbrev pub IsMatch : ℕ → ℕ × ℕ → Type 0
  IsMatch base_offset found = (x : ℕ) × (found.1 ≡ base_offset + x) × Verifies found.0 x

  module _ (x base_offset : ℕ) where
    -- What holds in every round: the digests kept are those of the windows.
    record IsGood (w : Walk) : Type 0 where
      memo :
          unwrap_or w.checksum (md4 (window md4 m input x base_offset))
          ≡ md4 (window md4 m input x base_offset)
      next_memo :
          unwrap_or w.next_checksum (md4 (next_window md4 m input x base_offset))
          ≡ md4 (next_window md4 m input x base_offset)
      matches : All (IsMatch base_offset) w.matched_blocks

    module _ (in_input : x + m.blocksize ≤ length input) where
      record_match :
          (id : ℕ) (sum : Bytes)
          → id < length m.targets
          → sum ≡ md4 (window md4 m input x base_offset)
          → same_checksum m sum (target_at m id).checksum ≡ true
          → Verifies id x
      record_match id sum lt e same = record {
        in_targets = lt;
        in_input = in_input;
        digest = rw e at (same_checksum-SameDigest m sum (target_at m id).checksum same);
      }

      visit_single-IsGood :
          (id : ℕ) (w : Walk)
          → id < length m.targets
          → IsGood w
          → IsGood (visit_single md4 m input x base_offset id w)
      unfolding visit_single
      visit_single-IsGood id w lt g =
          elim (Bool-cases (same_checksum m sum (target_at m id).checksum)) [
            | inl e ↦ rw e (record {
              memo = g.memo;
              next_memo = g.next_memo;
              matches =
                  All-append (IsMatch base_offset) w.matched_blocks ((id, base_offset + x) ∷ [])
                    g.matches ((x, refl, record_match id sum lt g.memo e), tt);
            })
            | inr e ↦ rw e (record { memo = g.memo; next_memo = g.next_memo; matches = g.matches })
          ]
        where
          sum : Bytes
          sum = unwrap_or w.checksum (md4 (window md4 m input x base_offset))

      module _ (next_in_input : x + m.blocksize + m.blocksize ≤ length input) where
        next_window_eq :
            next_window md4 m input x base_offset
            ≡ slice input (x + m.blocksize) (x + m.blocksize + m.blocksize)
        next_window_eq =
            let e : x + m.blocksize * 2 ≡ x + m.blocksize + m.blocksize = omega arith in
            ap (λ hi. slice input (x + m.blocksize) hi) e

        record_next :
            (id : ℕ) (sum : Bytes)
            → id < length m.targets
            → sum ≡ md4 (next_window md4 m input x base_offset)
            → same_checksum m sum (target_at m id).checksum ≡ true
            → Verifies id (x + m.blocksize)
        record_next id sum lt e same = record {
          in_targets = lt;
          in_input = next_in_input;
          digest =
              rw (e ∙ ap md4 next_window_eq) at
                (same_checksum-SameDigest m sum (target_at m id).checksum same);
        }

        visit_pair-IsGood :
            (id : ℕ) (r1 : Rsum) (w : Walk)
            → id + 1 < length m.targets
            → IsGood w
            → IsGood (visit_pair md4 m input x base_offset id r1 w)
        unfolding visit_pair
        visit_pair-IsGood id r1 w lt g =
            elim (Bool-cases (rsum_match m (target_at m (id + 1)).rsum r1)) [
              | inr e ↦ rw e g
              | inl e ↦ elim (Bool-cases (same_checksum m sum (target_at m id).checksum)) [
                | inr d ↦
                    rw (e, d)
                      (record { memo = g.memo; next_memo = g.next_memo; matches = g.matches })
                | inl d ↦
                    elim (Bool-cases (same_checksum m next_sum (target_at m (id + 1)).checksum)) [
                      | inr n ↦
                          rw (e, d, n)
                            (record { memo = g.memo; next_memo = g.next_memo; matches = g.matches })
                      | inl n ↦
                          rw (e, d, n)
                            (record { memo = g.memo; next_memo = g.next_memo; matches = both d n })
                    ]
              ]
            ]
          where
            sum : Bytes
            sum = unwrap_or w.checksum (md4 (window md4 m input x base_offset))

            next_sum : Bytes
            next_sum = unwrap_or w.next_checksum (md4 (next_window md4 m input x base_offset))

            both :
                same_checksum m sum (target_at m id).checksum ≡ true
                → same_checksum m next_sum (target_at m (id + 1)).checksum ≡ true
                → All (IsMatch base_offset) (
                    w.matched_blocks
                    ++ ((id, base_offset + x) ∷ (id + 1, base_offset + x + m.blocksize) ∷ []))
            both d n = All-append (IsMatch base_offset) w.matched_blocks _ g.matches (
              (x, refl, record_match id sum (omega arith) g.memo d),
              ((x + m.blocksize, omega arith, record_next (id + 1) next_sum lt g.next_memo n), tt),
            )

    module _ (in_input : x + m.blocksize ≤ length input)
        (pair_in_input : ltb 1 m.hash_lengths.seq_matches ≡ true
          → x + m.blocksize + m.blocksize ≤ length input) where
      visit-IsGood :
          (matched : Option ℕ) (id : ℕ) (r0 r1 : Rsum) (w : Walk)
          → id < length m.targets
          → IsGood w
          → IsGood (visit md4 m input x base_offset matched id r0 r1 w)
      unfolding visit
      visit-IsGood matched id r0 r1 w lt g =
          elim (Bool-cases (is_matched matched id || not (rsum_match m (target_at m id).rsum r0))) [
            | inl e ↦ rw e g
            | inr e ↦ elim (Bool-cases (ltb 1 m.hash_lengths.seq_matches)) [
              | inr p ↦ rw (e, p) (visit_single-IsGood in_input id w lt g)
              | inl p ↦ elim (Bool-cases (ltb (id + 1) (length m.targets))) [
                | inr q ↦ rw (e, p, q) (visit_single-IsGood in_input id w lt g)
                | inl q ↦
                    rw (e, p, q)
                      (visit_pair-IsGood in_input (pair_in_input p) id r1 w (ltb→lt _ _ q) g)
              ]
            ]
          ]

      walk-IsGood :
          (ix : IsIndexed m) (matched : Option ℕ) (r0 r1 : Rsum) (rounds idx lo : ℕ) (w : Walk)
          → IsLink m lo idx
          → IsGood w
          → IsGood (walk md4 m input x base_offset matched r0 r1 rounds idx w)
      unfolding walk
      walk-IsGood ix matched r0 r1 zero idx lo w link g = g
      walk-IsGood ix matched r0 r1 (suc rounds) idx lo w (inl e) g = rw (e) g
      walk-IsGood ix matched r0 r1 (suc rounds) idx lo w (inr in_order) g =
          elim (Bool-cases (idx == hash_empty)) [
            | inl e ↦ rw e g
            | inr e ↦ rw e (
                walk-IsGood ix matched r0 r1 rounds _ _ _ (ix.next_links idx)
                  (visit-IsGood matched idx r0 r1 w in_order.1 g))
          ]

      -- Every pair that `match_chain` adds names a window of the input, inside it, whose digest is
      -- that of the block.
      pub match_chain-IsMatch :
          (ix : IsIndexed m) (r0 r1 : Rsum) (matched : Option ℕ) (checksum : Option Bytes)
          (ms : Matches)
          → unwrap_or checksum (md4 (window md4 m input x base_offset))
            ≡ md4 (window md4 m input x base_offset)
          → All (IsMatch base_offset) ms
          → All
              (IsMatch base_offset)
              (match_chain md4 m input x base_offset r0 r1 matched checksum ms).1
      unfolding match_chain
      match_chain-IsMatch ix r0 r1 matched checksum ms memo h =
          elim (Bool-cases (filter_bit md4 m input x base_offset r0 r1 == 0)) [
            | inl e ↦ rw e h
            | inr e ↦
                rw e
                  (walk-IsGood ix matched r0 r1 (length m.targets)
                    (get_or m.hash_table bucket hash_empty) 0 start (ix.table_links bucket)
                    (record { memo = memo; next_memo = refl; matches = h })).matches
          ]
        where
          bucket : ℕ
          bucket = bit_and (calc_hash_rolling m r0 r1) m.hash_mask

          start : Walk
          start = record {
            checksum = checksum;
            next_checksum = none;
            first = none;
            matched_blocks = ms;
          }
