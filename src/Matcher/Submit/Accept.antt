-- ===== src/Matcher/Submit/Accept.antt =====
-- `submit_source_data` of src/matcher.rs, after the scan: which candidates are taken.
use mathlib.Core.Bool.{false≢true}
use zsync_rs.Prelude.{unset-lt-length, ==_of_ne, ==_refl}
use native.Mathlib.Decide.{ℕ_discrete}
use zsync_rs.Prelude.{
  ℕ, ◌+◌, ◌≡◌, ◌≢◌, refl, sym, ap, ◌∙◌, inl, inr, arith, Bool, true, false, [], ◌∷◌,
}
use zsync_rs.Prelude.{
  length, set, ◌==◌, if◌then◌else◌, get_or-set_self, get_or-set_ne, Bool-cases, All,
}
use zsync_rs.Matcher.{BlockMatcher, is_known_at, mark_known, remove_block_from_hash}
use zsync_rs.Matcher.Chain.{Matches}
use zsync_rs.Matcher.Known.{IsValid, mark_known-IsValid, mark_known_lem}
use zsync_rs.Matcher.Unlink.{remove_block_from_hash-IsValid, remove_block_from_hash-keeps}
use zsync_rs.Matcher.Submit.{accept}

-- Whether a list of pairs names block `id`.
unfoldable pub names : ℕ → Matches → Bool
names id [] = false
names id ((block_id, offset) ∷ rest) = if block_id == id then true else names id rest

-- One accepted block: it is marked, and its link is taken out of the hash table.
abbrev take_block : ℕ → BlockMatcher → BlockMatcher
take_block id m = remove_block_from_hash id (mark_known id m)

take_block-known :
    (id : ℕ) (m : BlockMatcher) → (take_block id m).known_blocks ≡ set m.known_blocks id true
take_block-known id m =
    (remove_block_from_hash-keeps id (mark_known id m)).1 ∙ (mark_known_lem id m).1

take_block_self :
    (id : ℕ) (m : BlockMatcher) → is_known_at m id ≡ false → is_known_at (take_block id m) id ≡ true
take_block_self id m h =
    rw (take_block-known id m)
      (get_or-set_self m.known_blocks id true true (unset-lt-length m.known_blocks id h))

take_block-count :
    (id : ℕ) (m : BlockMatcher)
    → is_known_at m id ≡ false
    → (take_block id m).known_count ≡ m.known_count + 1
unfolding mark_known
take_block-count id m h = (remove_block_from_hash-keeps id (mark_known id m)).2 ∙ (rw h)

take_block_ne :
    (id j : ℕ) (m : BlockMatcher) → id ≢ j → is_known_at (take_block id m) j ≡ is_known_at m j
take_block_ne id j m ne =
    rw (take_block-known id m) (get_or-set_ne m.known_blocks id j true true ne)

-- A block is known afterwards exactly if it was known before or the result names it.
pub accept-known :
    (ms : Matches) (m : BlockMatcher) (id : ℕ)
    → is_known_at (accept ms m).0 id ≡ (if is_known_at m id then true else names id (accept ms m).1)
unfolding accept names
accept-known [] m id = elim (Bool-cases (is_known_at m id)) [ inl e ↦ rw e | inr e ↦ rw e ]
accept-known ((block_id, offset) ∷ ms) m id = elim (Bool-cases (is_known_at m block_id)) [
  | inl old ↦ rw old (accept-known ms m id)
  | inr new ↦ rw new (elim (ℕ_discrete block_id id) [
    | yes same ↦
        rw (accept-known ms (take_block block_id m) id, ← same, new)
          (rw (take_block_self block_id m new, ==_refl block_id))
    | no other ↦ rw (
      accept-known ms (take_block block_id m) id,
      take_block_ne block_id id m other,
      ==_of_ne block_id id other,
    )
  ])
]

-- The result names only blocks that were unknown.
pub accept-unknown :
    (ms : Matches) (m : BlockMatcher) (id : ℕ)
    → is_known_at m id ≡ true
    → names id (accept ms m).1 ≡ false
unfolding accept names
accept-unknown [] m id h = refl
accept-unknown ((block_id, offset) ∷ ms) m id h = elim (Bool-cases (is_known_at m block_id)) [
  | inl old ↦ rw old (accept-unknown ms m id h)
  | inr new ↦
      rw (new, ==_of_ne block_id id (different new))
        (accept-unknown ms (take_block block_id m) id
          (take_block_ne block_id id m (different new) ∙ h))
]
  where
    different : is_known_at m block_id ≡ false → block_id ≢ id
    different new e = false≢true (sym new ∙ ap (is_known_at m) e ∙ h)

-- No block is named twice.
unfoldable pub IsDistinct : Matches → Type 0
IsDistinct [] = Unit
IsDistinct ((block_id, offset) ∷ ms) = (names block_id ms ≡ false) × IsDistinct ms

-- The pairs that are reported name each block once, and only blocks that were unknown.
pub accept-IsDistinct : (ms : Matches) (m : BlockMatcher) → IsDistinct (accept ms m).1
unfolding accept IsDistinct
accept-IsDistinct [] m = tt
accept-IsDistinct ((block_id, offset) ∷ ms) m = elim (Bool-cases (is_known_at m block_id)) [
  | inl old ↦ rw old (accept-IsDistinct ms m)
  | inr new ↦ rw new (
    accept-unknown ms (take_block block_id m) block_id (take_block_self block_id m new),
    accept-IsDistinct ms (take_block block_id m),
  )
]

pub accept-IsValid : (ms : Matches) {m : BlockMatcher} → IsValid m → IsValid (accept ms m).0
unfolding accept
accept-IsValid [] v = v
accept-IsValid ((block_id, offset) ∷ ms) {m} v = elim (Bool-cases (is_known_at m block_id)) [
  | inl old ↦ rw old (accept-IsValid ms v)
  | inr new ↦
      rw new (
        accept-IsValid ms (remove_block_from_hash-IsValid block_id (mark_known-IsValid block_id v)))
]

pub accept-count :
    (ms : Matches) (m : BlockMatcher)
    → (accept ms m).0.known_count ≡ m.known_count + length (accept ms m).1
unfolding accept
accept-count [] m = omega arith
accept-count ((block_id, offset) ∷ ms) m = elim (Bool-cases (is_known_at m block_id)) [
  | inl old ↦ rw old (accept-count ms m)
  | inr new ↦
      rw new
        (omega (arith, accept-count ms (take_block block_id m), take_block-count block_id m new))
]

pub accept-keeps :
    (ms : Matches) (m : BlockMatcher)
    → ((accept ms m).0.targets ≡ m.targets)
      × ((accept ms m).0.hash_lengths ≡ m.hash_lengths)
      × ((accept ms m).0.blocksize ≡ m.blocksize)
unfolding accept
accept-keeps [] m = (refl, refl, refl)
accept-keeps ((block_id, offset) ∷ ms) m = elim (Bool-cases (is_known_at m block_id)) [
  | inl old ↦ rw old (accept-keeps ms m)
  | inr new ↦ rw new (
      let rest = accept-keeps ms (take_block block_id m) in
      let gone = remove_block_from_hash-keeps block_id (mark_known block_id m) in
      let marked = mark_known_lem block_id m in
      (rest.0 ∙ gone.0 ∙ marked.0, rest.1 ∙ gone.3 ∙ marked.2, rest.2 ∙ gone.4 ∙ marked.3))
]

-- What holds of all candidates holds of the accepted ones.
pub accept-All {ℓ} :
    (P : ℕ × ℕ → Type ℓ) (ms : Matches) (m : BlockMatcher) → All P ms → All P (accept ms m).1
unfolding accept
accept-All P [] m h = tt
accept-All P ((block_id, offset) ∷ ms) m h = elim (Bool-cases (is_known_at m block_id)) [
  | inl old ↦ rw old (accept-All P ms m h.1)
  | inr new ↦ rw new (h.0, accept-All P ms (take_block block_id m) h.1)
]
