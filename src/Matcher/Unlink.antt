-- ===== src/Matcher/Unlink.antt =====
-- `remove_block_from_hash` of src/matcher.rs keeps the chains in order.
use Prim.Native.Nat.{bit_and}
use zsync_rs.Prelude.{
  ℕ, zero, suc, ◌≤◌, ◌<◌, ◌≡◌, refl, ◌∙◌, ◌⊎◌, inl, inr, arith, false, List, [], ◌∷◌,
}
use zsync_rs.Prelude.{length, get_or, set, length-set, ◌==◌, ==_iff, Bool-cases}
use zsync_rs.Matcher.{BlockMatcher, hash_empty, unlink, remove_block_from_hash, calc_hash}
use zsync_rs.Matcher.Chain.Sound.{IsLink}
use zsync_rs.Matcher.Known.{IsValid}

-- A link that is set to another link of the right place.
pub set-IsLink :
    (m : BlockMatcher) (links : List ℕ) (lo : ℕ → ℕ) (at_i v : ℕ)
    → ((i : ℕ) → IsLink m (lo i) (get_or links i hash_empty))
    → IsLink m (lo at_i) v
    → (i : ℕ) → IsLink m (lo i) (get_or (set links at_i v) i hash_empty)
set-IsLink m [] lo at_i v h k i = h i
set-IsLink m (x ∷ links) lo zero v h k zero = k
set-IsLink m (x ∷ links) lo zero v h k (suc i) = h (suc i)
set-IsLink m (x ∷ links) lo (suc at_i) v h k zero = h 0
set-IsLink m (x ∷ links) lo (suc at_i) v h k (suc i) =
    set-IsLink m links (λ j. lo (suc j)) at_i v (λ j. h (suc j)) k i

pub IsLink-weaken : (m : BlockMatcher) {lo lo' v : ℕ} → lo' ≤ lo → IsLink m lo v → IsLink m lo' v
IsLink-weaken m h (inl e) = inl e
IsLink-weaken m h (inr (above, below)) = inr (omega arith, below)

-- What follows block `id` is hooked in before it, in the table or in a chain.
relink_table :
    (m : BlockMatcher) (id bucket : ℕ)
    → IsValid m
    → IsValid (record m { hash_table = set m.hash_table bucket (get_or m.hash_next id hash_empty) })
relink_table m id bucket v = record {
  known_length = v.known_length;
  next_length = v.next_length;
  counted = v.counted;
  indexed = record {
    table_links =
        set-IsLink m m.hash_table (λ _. 0) bucket (get_or m.hash_next id hash_empty)
          v.indexed.table_links (IsLink-weaken m (omega arith) (v.indexed.next_links id));
    next_links = v.indexed.next_links;
  };
}

relink_next :
    (m : BlockMatcher) (id prev : ℕ)
    → prev < id
    → IsValid m
    → IsValid (record m { hash_next = set m.hash_next prev (get_or m.hash_next id hash_empty) })
relink_next m id prev before v = record {
  known_length = v.known_length;
  next_length = length-set m.hash_next prev (get_or m.hash_next id hash_empty) ∙ v.next_length;
  counted = v.counted;
  indexed = record {
    table_links = v.indexed.table_links;
    next_links =
        set-IsLink m m.hash_next suc prev (get_or m.hash_next id hash_empty) v.indexed.next_links
          (IsLink-weaken m (omega arith) (v.indexed.next_links id));
  };
}

-- `prev` comes before `curr`, unless there is no block before it.
abbrev Precedes : BlockMatcher → ℕ → ℕ → Type 0
Precedes m prev curr = IsLink m (suc prev) curr ⊎ (prev ≡ hash_empty)

Precedes-lt :
    (m : BlockMatcher) (prev curr : ℕ)
    → Precedes m prev curr
    → (curr == hash_empty) ≡ false
    → (prev == hash_empty) ≡ false
    → prev < curr
Precedes-lt m prev curr (inl (inl e)) p q = absurd (ground arith)
Precedes-lt m prev curr (inl (inr (above, below))) p q = above
Precedes-lt m prev curr (inr e) p q = absurd (ground arith)

unlink-IsValid :
    (rounds id bucket prev curr : ℕ) (m : BlockMatcher)
    → IsValid m
    → Precedes m prev curr
    → IsValid (unlink rounds id bucket prev curr m)
unfolding unlink
unlink-IsValid zero id bucket prev curr m v h = v
unlink-IsValid (suc rounds) id bucket prev curr m v h = elim (Bool-cases (curr == hash_empty)) [
  | inl end ↦ rw end v
  | inr more ↦ elim (Bool-cases (curr == id)) [
    | inr other ↦
        rw (more, other)
          (unlink-IsValid rounds id bucket curr (get_or m.hash_next curr hash_empty) m v
            (inl (v.indexed.next_links curr)))
    | inl found ↦ elim (Bool-cases (prev == hash_empty)) [
      | inl first ↦ rw (more, found, first) (relink_table m id bucket v)
      | inr inner ↦
          rw (more, found, inner)
            (relink_next m id prev
              (rw ((==_iff curr id).0 found) at (Precedes-lt m prev curr h more inner)) v)
    ]
  ]
]

-- Taking any block out of the index of a valid matcher leaves it valid: the chains still hold
-- blocks of the target in ascending order.
pub remove_block_from_hash-IsValid :
    {m : BlockMatcher} (id : ℕ) → IsValid m → IsValid (remove_block_from_hash id m)
unfolding remove_block_from_hash
remove_block_from_hash-IsValid {m} id v =
    unlink-IsValid (length m.targets) id bucket hash_empty (get_or m.hash_table bucket hash_empty) m
      v (inr refl)
  where
    bucket : ℕ
    bucket = bit_and (calc_hash m id) m.hash_mask

-- Only the chains change.
unlink-keeps :
    (rounds id bucket prev curr : ℕ) (m : BlockMatcher)
    → let m' = unlink rounds id bucket prev curr m in
      (m'.targets ≡ m.targets)
      × (m'.known_blocks ≡ m.known_blocks)
      × (m'.known_count ≡ m.known_count)
      × (m'.hash_lengths ≡ m.hash_lengths)
      × (m'.blocksize ≡ m.blocksize)
unfolding unlink
unlink-keeps zero id bucket prev curr m = (refl, refl, refl, refl, refl)
unlink-keeps (suc rounds) id bucket prev curr m = elim (Bool-cases (curr == hash_empty)) [
  | inl end ↦ rw end (refl, refl, refl, refl, refl)
  | inr more ↦ elim (Bool-cases (curr == id)) [
    | inr other ↦
        rw (more, other) (unlink-keeps rounds id bucket curr (get_or m.hash_next curr hash_empty) m)
    | inl found ↦ elim (Bool-cases (prev == hash_empty)) [
      | inl first ↦ rw (more, found, first) (refl, refl, refl, refl, refl)
      | inr inner ↦ rw (more, found, inner) (refl, refl, refl, refl, refl)
    ]
  ]
]

pub remove_block_from_hash-keeps :
    (id : ℕ) (m : BlockMatcher)
    → let m' = remove_block_from_hash id m in
      (m'.targets ≡ m.targets)
      × (m'.known_blocks ≡ m.known_blocks)
      × (m'.known_count ≡ m.known_count)
      × (m'.hash_lengths ≡ m.hash_lengths)
      × (m'.blocksize ≡ m.blocksize)
unfolding remove_block_from_hash
remove_block_from_hash-keeps id m =
    unlink-keeps (length m.targets) id bucket hash_empty (get_or m.hash_table bucket hash_empty) m
  where
    bucket : ℕ
    bucket = bit_and (calc_hash m id) m.hash_mask
