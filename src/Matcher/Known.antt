-- ===== src/Matcher/Known.antt =====
-- The record of known blocks and its counter (`mark_known` of src/matcher.rs), and the
-- invariant of a matcher.
use zsync_rs.Prelude.{
  ℕ, zero, suc, ◌+◌, ◌≤◌, ◌≡◌, refl, sym, ap, ◌∙◌, inl, inr, arith, Bool, true, false, List, [],
  ◌∷◌,
}
use zsync_rs.Prelude.{length, get_or, set, replicate, length-set, Bool-cases}
use zsync_rs.Matcher.{BlockMatcher, is_known_at, mark_known}
use zsync_rs.Matcher.Chain.Sound.{IsIndexed}

pub count_known : List Bool → ℕ
count_known [] = 0
count_known (true ∷ known) = suc (count_known known)
count_known (false ∷ known) = count_known known

-- What every operation on a matcher keeps.
pub record IsValid (m : BlockMatcher) : Type 0 where
  pub known_length : length m.known_blocks ≡ length m.targets
  pub next_length : length m.hash_next ≡ length m.targets
  pub counted : m.known_count ≡ count_known m.known_blocks
  pub indexed : IsIndexed m

count_known-set :
    (known : List Bool) (i : ℕ)
    → get_or known i true ≡ false
    → count_known (set known i true) ≡ count_known known + 1
unfolding count_known
count_known-set [] i h = cc
count_known-set (true ∷ known) zero h = cc
count_known-set (false ∷ known) zero h = omega arith
count_known-set (true ∷ known) (suc i) h = omega (arith, count_known-set known i h)
count_known-set (false ∷ known) (suc i) h = count_known-set known i h

pub count_known-le : (known : List Bool) → count_known known ≤ length known
unfolding count_known
count_known-le [] = omega arith
count_known-le (true ∷ known) = omega (arith, count_known-le known)
count_known-le (false ∷ known) = omega (arith, count_known-le known)

pub count_known_none : (n : ℕ) → count_known (replicate n false) ≡ 0
unfolding count_known
count_known_none zero = refl
count_known_none (suc n) = count_known_none n

-- A full count means that every flag is set.
pub count_known-full :
    (known : List Bool) → count_known known ≡ length known → (i : ℕ) → get_or known i true ≡ true
unfolding count_known
count_known-full [] h i = refl
count_known-full (true ∷ known) h zero = refl
count_known-full (true ∷ known) h (suc i) = count_known-full known (omega arith) i
count_known-full (false ∷ known) h i = absurd (omega (arith, count_known-le known))

-- Marking any block of a valid matcher leaves it valid: the counter of known blocks stays right,
-- and the index is as it was.
pub mark_known-IsValid : {m : BlockMatcher} (id : ℕ) → IsValid m → IsValid (mark_known id m)
unfolding mark_known
mark_known-IsValid {m} id v = elim (Bool-cases (is_known_at m id)) [
  | inl old ↦ rw old v
  | inr new ↦ rw new (record {
    known_length = length-set m.known_blocks id true ∙ v.known_length;
    next_length = v.next_length;
    counted = omega (arith, v.counted, count_known-set m.known_blocks id new);
    indexed = record { table_links = v.indexed.table_links; next_links = v.indexed.next_links };
  })
]

set_same : (known : List Bool) (i : ℕ) → get_or known i true ≡ true → set known i true ≡ known
set_same [] i h = refl
set_same (x ∷ known) zero h = ap (λ b. b ∷ known) (sym h)
set_same (x ∷ known) (suc i) h = ap (λ t. x ∷ t) (set_same known i h)

-- `mark_known` sets the one flag and changes no other field but the counter.
pub mark_known_lem :
    (id : ℕ) (m : BlockMatcher)
    → let m' = mark_known id m in
      (m'.targets ≡ m.targets)
      × (m'.known_blocks ≡ set m.known_blocks id true)
      × (m'.hash_lengths ≡ m.hash_lengths)
      × (m'.blocksize ≡ m.blocksize)
unfolding mark_known
mark_known_lem id m = elim (Bool-cases (is_known_at m id)) [
  | inl old ↦ rw old (refl, sym (set_same m.known_blocks id old), refl, refl)
  | inr new ↦ rw new (refl, refl, refl, refl)
]
