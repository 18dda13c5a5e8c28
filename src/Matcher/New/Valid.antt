-- ===== src/Matcher/New/Valid.antt =====
-- `BlockMatcher::new` of src/matcher.rs builds a valid index in which no block is known.
use Prim.Native.Nat.{bit_and}
use zsync_rs.Prelude.{
  ℕ, zero, suc, ◌≤◌, ◌<◌, ◌^◌, ◌≡◌, refl, sym, ap, ◌∙◌, inl, inr, arith, false, List, [], ◌∷◌, map,
}
use zsync_rs.Prelude.{length, get_or, length-set, length-replicate, get_or-replicate, u32}
use zsync_rs.Control.{ControlFile}
use zsync_rs.Control.Header.{max_blocks}
use zsync_rs.Matcher.{BlockMatcher, hash_empty, calc_hash}
use zsync_rs.Matcher.Chain.Sound.{IsLink}
use zsync_rs.Matcher.Known.{IsValid, count_known, count_known_none}
use zsync_rs.Matcher.Unlink.{set-IsLink, IsLink-weaken}
use zsync_rs.Matcher.New.{index_block, index_blocks, empty_matcher, new}

-- The state of the indexing loop before block `id - 1`: the table holds blocks from `id` on.
pub record IsBuilt (id : ℕ) (m : BlockMatcher) : Type 0 where
  pub table_from : (i : ℕ) → IsLink m id (get_or m.hash_table i hash_empty)
  pub next_from : (i : ℕ) → IsLink m (suc i) (get_or m.hash_next i hash_empty)
  pub known_length : length m.known_blocks ≡ length m.targets
  pub next_length : length m.hash_next ≡ length m.targets
  pub counted : m.known_count ≡ count_known m.known_blocks

pub index_block-IsBuilt :
    (id : ℕ) (m : BlockMatcher)
    → id < length m.targets
    → length m.targets ≤ 2 ^ 32
    → IsBuilt (suc id) m
    → IsBuilt id (index_block id m)
unfolding index_block
index_block-IsBuilt id m lt small b = record {
  table_from =
      set-IsLink m m.hash_table (λ _. id) bucket (u32 id)
        (λ i. IsLink-weaken m (omega arith) (b.table_from i)) (inr (omega arith, omega arith));
  next_from =
      set-IsLink m m.hash_next suc id (get_or m.hash_table bucket hash_empty) b.next_from
        (b.table_from bucket);
  known_length = b.known_length;
  next_length = length-set m.hash_next id (get_or m.hash_table bucket hash_empty) ∙ b.next_length;
  counted = b.counted;
}
  where
    bucket : ℕ
    bucket = bit_and (calc_hash m id) m.hash_mask

index_blocks-IsBuilt :
    (id : ℕ) (m : BlockMatcher)
    → id ≤ length m.targets
    → length m.targets ≤ 2 ^ 32
    → IsBuilt id m
    → IsBuilt 0 (index_blocks id m)
unfolding index_blocks index_block
index_blocks-IsBuilt zero m le small b = b
index_blocks-IsBuilt (suc id) m le small b =
    index_blocks-IsBuilt id (index_block id m) (omega arith) small
      (index_block-IsBuilt id m le small b)

pub length-map {ℓ κ} :
    {A : Type ℓ} {B : Type κ} (f : A → B) (xs : List A) → length (map f xs) ≡ length xs
length-map f [] = refl
length-map f (x ∷ xs) = ap suc (length-map f xs)

pub empty-IsBuilt :
    (control : ControlFile) → IsBuilt (length control.block_checksums) (empty_matcher control)
unfolding empty_matcher
empty-IsBuilt control = record {
  table_from = λ i. inl (get_or-replicate _ hash_empty i);
  next_from = λ i. inl (get_or-replicate (length control.block_checksums) hash_empty i);
  known_length = length-replicate _ false ∙ sym (length-map _ control.block_checksums);
  next_length = length-replicate _ hash_empty ∙ sym (length-map _ control.block_checksums);
  counted = sym (count_known_none (length control.block_checksums));
}

pub length-targets :
    (control : ControlFile)
    → length (empty_matcher control).targets ≡ length control.block_checksums
unfolding empty_matcher
length-targets control = length-map _ control.block_checksums

-- A new matcher of at most 2^26 blocks is valid: its counter is right, and the chains of its hash
-- table hold blocks of the target in ascending order.
pub new-IsValid :
    (control : ControlFile) → length control.block_checksums ≤ max_blocks → IsValid (new control)
unfolding new empty_matcher
new-IsValid control small = record {
  known_length = built.known_length;
  next_length = built.next_length;
  counted = built.counted;
  indexed = record { table_links = built.table_from; next_links = built.next_from };
}
  where
    built : IsBuilt 0 (new control)
    built =
        index_blocks-IsBuilt (length control.block_checksums) (empty_matcher control)
          (omega (arith, length-targets control)) (omega (arith, length-targets control))
          (empty-IsBuilt control)
