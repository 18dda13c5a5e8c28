-- ===== src/Matcher/Chain/Fuel.antt =====
-- The loops along a chain of the index, in `match_chain` and `remove_block_from_hash` of
-- src/matcher.rs, come to the end of the chain.
use zsync_rs.Prelude.{ℕ, zero, suc, ◌+◌, ◌≤◌, ◌≡◌, refl, arith, inl, inr}
use zsync_rs.Prelude.{length, get_or, ◌==◌, Bool-cases, true, false, Option}
use zsync_rs.Rsum.{Rsum}
use zsync_rs.Control.{Bytes}
use zsync_rs.Matcher.{BlockMatcher, hash_empty, unlink}
use zsync_rs.Matcher.Chain.{Walk, visit, walk}
use zsync_rs.Matcher.Chain.Sound.{IsLink, IsIndexed}

-- The next link of a chain, and the bound on the rounds that it leaves.
next-IsLink :
    {m : BlockMatcher} (ix : IsIndexed m) (rounds lo v : ℕ)
    → IsLink m lo v
    → (v == hash_empty) ≡ false
    → length m.targets ≤ lo + suc rounds
    → IsLink m (suc v) (get_or m.hash_next v hash_empty) × (length m.targets ≤ suc v + rounds)
next-IsLink ix rounds lo v link more enough = (ix.next_links v, ground (arith, link))

-- No rounds are needed only at the end.
at_end :
    (m : BlockMatcher) (lo v : ℕ)
    → IsLink m lo v
    → length m.targets ≤ lo + 0
    → (v == hash_empty) ≡ true
at_end m lo v link enough = ground (arith, link)

module _ (md4 : Bytes → Bytes) (m : BlockMatcher) (input : Bytes) (x base_offset : ℕ)
    (ix : IsIndexed m) (matched : Option ℕ) (r0 r1 : Rsum) where
  walk_fuel :
      (rounds more lo v : ℕ) (w : Walk)
      → IsLink m lo v
      → length m.targets ≤ lo + rounds
      → length m.targets ≤ lo + more
      → walk md4 m input x base_offset matched r0 r1 rounds v w
        ≡ walk md4 m input x base_offset matched r0 r1 more v w
  unfolding walk
  walk_fuel zero zero lo v w link h k = refl
  walk_fuel zero (suc more) lo v w link h k = rw (at_end m lo v link h) refl
  walk_fuel (suc rounds) zero lo v w link h k = rw (at_end m lo v link k) refl
  walk_fuel (suc rounds) (suc more) lo v w link h k = elim (Bool-cases (v == hash_empty)) [
    | inl e ↦ rw e refl
    | inr e ↦ rw e (
        walk_fuel rounds more (suc v) (get_or m.hash_next v hash_empty)
          (visit md4 m input x base_offset matched v r0 r1 w)
          (next-IsLink ix rounds lo v link e h).0 (next-IsLink ix rounds lo v link e h).1
          (next-IsLink ix more lo v link e k).1)
  ]

  -- In a matcher with a well-formed index, the walk along the chain of any bucket with one round
  -- for each block of the target is the walk with any number of rounds from there on.
  pub walk-length :
      (rounds bucket : ℕ) (w : Walk)
      → length m.targets ≤ rounds
      → let start = get_or m.hash_table bucket hash_empty in
        walk md4 m input x base_offset matched r0 r1 rounds start w
        ≡ walk md4 m input x base_offset matched r0 r1 (length m.targets) start w
  walk-length rounds bucket w h =
      walk_fuel rounds (length m.targets) 0 _ w (ix.table_links bucket) (omega arith) (omega arith)

unlink_fuel :
    (m : BlockMatcher) (ix : IsIndexed m) (id bucket rounds more lo prev v : ℕ)
    → IsLink m lo v
    → length m.targets ≤ lo + rounds
    → length m.targets ≤ lo + more
    → unlink rounds id bucket prev v m ≡ unlink more id bucket prev v m
unfolding unlink
unlink_fuel m ix id bucket zero zero lo prev v link h k = refl
unlink_fuel m ix id bucket zero (suc more) lo prev v link h k = rw (at_end m lo v link h) refl
unlink_fuel m ix id bucket (suc rounds) zero lo prev v link h k = rw (at_end m lo v link k) refl
unlink_fuel m ix id bucket (suc rounds) (suc more) lo prev v link h k =
    elim (Bool-cases (v == hash_empty)) [
      | inl e ↦ rw e refl
      | inr e ↦
          let go =
            unlink_fuel m ix id bucket rounds more (suc v) v (get_or m.hash_next v hash_empty)
              (next-IsLink ix rounds lo v link e h).0 (next-IsLink ix rounds lo v link e h).1
              (next-IsLink ix more lo v link e k).1 in
          rw (e, go) refl
    ]

-- In a matcher with a well-formed index, the walk that takes a block out of the chain of any bucket
-- is, with one round for each block of the target, the walk with any number of rounds from there
-- on.
pub unlink-length :
    (m : BlockMatcher) (id bucket rounds : ℕ)
    → IsIndexed m
    → length m.targets ≤ rounds
    → let start = get_or m.hash_table bucket hash_empty in
      unlink rounds id bucket hash_empty start m
      ≡ unlink (length m.targets) id bucket hash_empty start m
unlink-length m id bucket rounds ix h =
    unlink_fuel m ix id bucket rounds (length m.targets) 0 hash_empty _ (ix.table_links bucket)
      (omega arith) (omega arith)
