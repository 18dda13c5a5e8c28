-- ===== src/Matcher/New/Found.antt =====
-- `BlockMatcher::new` of src/matcher.rs indexes every block: in the chain of its hash, and in the bit
-- filter.
use Prim.Native.Nat.{bit_and, bit_or}
use native.Mathlib.Nat.{one-le-pow, mod-lt}
use native.Mathlib.Decide.{ℕ_discrete}
use zsync_rs.Prelude.{
  ℕ, zero, suc, ◌+◌, ◌-◌, ◌/◌, ◌%◌, ◌≤◌, ◌<◌, ◌^◌, ◌≡◌, ◌≢◌, ap, inl, inr, arith, List,
}
use zsync_rs.Prelude.{
  length, get_or, set, length-set, length-replicate, get_or-set_self, get_or-set_ne, u32, bit32,
  bit_and-mask, bit_and-same, bit_or-left, bit_or-right,
}
use zsync_rs.Control.{ControlFile}
use zsync_rs.Control.Header.{max_blocks}
use zsync_rs.Matcher.{BlockMatcher, hash_empty, calc_hash}
use zsync_rs.Matcher.Chain.Sound.{IsLink}
use zsync_rs.Matcher.New.{
  index_block, index_blocks, empty_matcher, avail_bits, shrink_bits, bithash_bits_total,
}
use zsync_rs.Matcher.New.Valid.{IsBuilt, index_block-IsBuilt, length-targets}

-- Block `id` is reached from link `curr` along a chain.
pub data IsOn (next : List ℕ) (id : ℕ) : ℕ → Type 0 where
  here : (curr : ℕ) → curr ≡ id → IsOn next id curr
  later :
      (curr : ℕ)
      → curr ≢ hash_empty
      → IsOn next id (get_or next curr hash_empty)
      → IsOn next id curr

abbrev pub bucket_of : BlockMatcher → ℕ → ℕ
bucket_of m id = bit_and (calc_hash m id) m.hash_mask

abbrev pub filter_of : BlockMatcher → ℕ → ℕ
filter_of m id = bit_and (calc_hash m id) m.bithash_mask

-- Block `id` is on the chain of its hash, and the bit of its hash is set in the filter.
pub record IsFound (m : BlockMatcher) (id : ℕ) : Type 0 where
  pub on_chain : IsOn m.hash_next id (get_or m.hash_table (bucket_of m id) hash_empty)
  pub in_filter :
      bit_and (get_or m.bithash (filter_of m id / 8) 0) (2 ^ bit_and (filter_of m id) 7) ≢ 0

-- A chain of later blocks is the same after a block before them is linked.
set_next-IsOn :
    (m : BlockMatcher) (k id v curr : ℕ)
    → ((i : ℕ) → IsLink m (suc i) (get_or m.hash_next i hash_empty))
    → k < hash_empty
    → k < curr
    → IsOn m.hash_next id curr
    → IsOn (set m.hash_next k v) id curr
set_next-IsOn m k id v curr links small above (IsOn.here _ e) = IsOn.here curr e
set_next-IsOn m k id v curr links small above (IsOn.later _ more rest) = IsOn.later curr more (
    rw (get_or-set_ne m.hash_next k curr v hash_empty (λ e. absurd (omega arith))) (
      set_next-IsOn m k id v (get_or m.hash_next curr hash_empty) links small (after (links curr))
        rest))
  where
    after : {next : ℕ} → IsLink m (suc curr) next → k < next
    after (inl e) = omega arith
    after (inr (lo, hi)) = omega arith

-- A bit that is set stays set.
set-bits :
    (bits : List ℕ) (i j y mask : ℕ)
    → i < length bits
    → bit_and (get_or bits j 0) mask ≢ 0
    → bit_and (get_or (set bits i (bit_or (get_or bits i 0) y)) j 0) mask ≢ 0
set-bits bits i j y mask inside h = elim (ℕ_discrete i j) [
  | no other ↦ rw (get_or-set_ne bits i j (bit_or (get_or bits i 0) y) 0 other) h
  | yes e ↦
      rw (← e)
        (rw (get_or-set_self bits i (bit_or (get_or bits i 0) y) 0 inside) (stays (rw (← e) at h)))
]
  where
    stays : bit_and (get_or bits i 0) mask ≢ 0 → bit_and (bit_or (get_or bits i 0) y) mask ≢ 0
    stays was_set clear = was_set (omega (arith, bit_or-left (get_or bits i 0) y mask))

own_bit : (bits n : ℕ) → bit_and (bit_or bits (2 ^ n)) (2 ^ n) ≢ 0
own_bit bits n clear = absurd (
    omega (
      arith,
      bit_or-right bits (2 ^ n) (2 ^ n),
      bit_and-same (2 ^ n),
      one-le-pow n 2 (omega arith),
    ))

-- Before round `k - 1`, every block from `k` on is found.
pub record IsFilled (k : ℕ) (m : BlockMatcher) : Type 0 where
  pub found : (id : ℕ) → k ≤ id → id < length m.targets → IsFound m id
  pub in_table : (h : ℕ) → bit_and h m.hash_mask < length m.hash_table
  pub in_bits : (h : ℕ) → bit_and h m.bithash_mask / 8 < length m.bithash

module _ (k : ℕ) (m : BlockMatcher) (inside : k < length m.targets) (small : k < hash_empty)
    (b : IsBuilt (suc k) m) (f : IsFilled (suc k) m) where
  abbrev head : ℕ
  head = get_or m.hash_table (bucket_of m k) hash_empty

  above_head : (bucket : ℕ) → k < get_or m.hash_table bucket hash_empty
  above_head bucket = from (b.table_from bucket)
    where
      from : {v : ℕ} → IsLink m (suc k) v → k < v
      from (inl e) = omega arith
      from (inr (lo, hi)) = omega arith

  index_block-IsOn :
      (id : ℕ)
      → k ≤ id
      → id < length m.targets
      → IsOn
          (set m.hash_next k head)
          id
          (get_or (set m.hash_table (bucket_of m k) (u32 k)) (bucket_of m id) hash_empty)
  index_block-IsOn id from below = elim (ℕ_discrete (bucket_of m k) (bucket_of m id)) [
    | no other ↦
        rw (get_or-set_ne m.hash_table (bucket_of m k) (bucket_of m id) (u32 k) hash_empty other)
          (elim (ℕ_discrete k id) [
            | yes e ↦ absurd (other (ap (bucket_of m) e))
            | no not_k ↦
                set_next-IsOn m k id head _ b.next_from small (above_head (bucket_of m id))
                  (f.found id (omega arith) below).on_chain
          ])
    | yes same ↦ rw (← same) (
        rw
          (get_or-set_self m.hash_table (bucket_of m k) (u32 k) hash_empty
            (f.in_table (calc_hash m k)))
          (elim (ℕ_discrete k id) [
            | yes e ↦ IsOn.here (u32 k) (omega arith)
            | no not_k ↦ IsOn.later (u32 k) (λ e. absurd (omega arith)) (chained not_k same)
          ]))
  ]
    where
      chained :
          k ≢ id
          → bucket_of m k ≡ bucket_of m id
          → IsOn (set m.hash_next k head) id (get_or (set m.hash_next k head) (u32 k) hash_empty)
      chained not_k same =
          let small_k : u32 k ≡ k = omega arith in
          let linked =
            set_next-IsOn m k id head head b.next_from small (above_head (bucket_of m k))
              (rw (← same) at ((f.found id (omega arith) below).on_chain)) in
          rw (small_k) (
            rw (get_or-set_self m.hash_next k head hash_empty (omega (arith, b.next_length)))
              linked)

  -- The bits of the filter after the round.
  abbrev filled : List ℕ
  filled =
      let bh = filter_of m k in
      set m.bithash (bh / 8) (bit_or (get_or m.bithash (bh / 8) 0) (2 ^ bit_and bh 7))

  index_block-in_filter :
      (id : ℕ)
      → k ≤ id
      → id < length m.targets
      → bit_and (get_or filled (filter_of m id / 8) 0) (2 ^ bit_and (filter_of m id) 7) ≢ 0
  index_block-in_filter id from below = elim (ℕ_discrete k id) [
    | no not_k ↦
        set-bits m.bithash (filter_of m k / 8) (filter_of m id / 8) (2 ^ bit_and (filter_of m k) 7)
          (2 ^ bit_and (filter_of m id) 7) (f.in_bits (calc_hash m k))
          (f.found id (omega arith) below).in_filter
    | yes e ↦ rw (← e) (
        rw (get_or-set_self m.bithash (filter_of m k / 8) _ 0 (f.in_bits (calc_hash m k)))
          (own_bit (get_or m.bithash (filter_of m k / 8) 0) (bit_and (filter_of m k) 7)))
  ]

  index_block-IsFilled : IsFilled k (index_block k m)
  unfolding index_block calc_hash
  index_block-IsFilled = record {
    found = λ id from below. record {
      on_chain = index_block-IsOn id from below;
      in_filter = index_block-in_filter id from below;
    };
    in_table = λ h. rw (length-set m.hash_table (bucket_of m k) (u32 k)) (f.in_table h);
    in_bits = λ h. rw (length-set m.bithash (filter_of m k / 8) _) (f.in_bits h);
  }

pub index_blocks-IsFilled :
    (k : ℕ) (m : BlockMatcher)
    → k ≤ length m.targets
    → length m.targets ≤ max_blocks
    → IsBuilt k m
    → IsFilled k m
    → IsFilled 0 (index_blocks k m)
unfolding index_blocks index_block
index_blocks-IsFilled zero m le few b f = f
index_blocks-IsFilled (suc k) m le few b f =
    index_blocks-IsFilled k (index_block k m) (omega arith) few
      (index_block-IsBuilt k m (omega arith) (omega arith) b)
      (index_block-IsFilled k m (omega arith) (omega arith) b f)

-- A hash under a mask of the low bits is below the size of the table.
masked : (n h : ℕ) → bit_and h (bit32 n - 1) < bit32 n
masked n h = rw (bit_and-mask (n % 32) h) (mod-lt h (one-le-pow (n % 32) 2 (omega arith)))

pub empty-IsFilled :
    (control : ControlFile) → IsFilled (length control.block_checksums) (empty_matcher control)
unfolding empty_matcher
empty-IsFilled control = record {
  found = λ id from below. absurd (omega (arith, length-targets control));
  in_table = λ h.
      rw (length-replicate (bit32 (hash_bits control)) hash_empty) (masked (hash_bits control) h);
  in_bits = λ h.
      rw (length-replicate {A = ℕ} (bit32 (total control) / 8 + 1) 0)
        (omega (arith, masked (total control) h));
}
  where
    avail : ControlFile → ℕ
    avail c = avail_bits c.hash_lengths.seq_matches c.hash_lengths.rsum_bytes

    hash_bits : ControlFile → ℕ
    hash_bits c = shrink_bits (length c.block_checksums) (avail c)

    total : ControlFile → ℕ
    total c = bithash_bits_total (hash_bits c) (avail c)
