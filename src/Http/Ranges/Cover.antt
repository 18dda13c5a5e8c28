-- ===== src/Http/Ranges/Cover.antt =====
-- `merge_byte_ranges` of src/http.rs: which bytes the merged ranges hold.
use mathlib.Core.List.{append_assoc}
use zsync_rs.Prelude.{
  ℕ, suc, ◌+◌, ◌-◌, ◌≤◌, ◌≡◌, refl, ap, ◌∙◌, inl, inr, arith, Bool, false, [], ◌∷◌, ◌++◌,
}
use zsync_rs.Prelude.{ltb, leb, ◌&&◌, ◌||◌, if◌then◌else◌, Bool-cases}
use zsync_rs.Http.Ranges.{ByteRanges, merge_loop, merge_byte_ranges}

-- Whether one of the inclusive ranges holds byte `k`.
unfoldable pub holds : ByteRanges → ℕ → Bool
holds [] k = false
holds ((s, e) ∷ ranges) k = (leb s k && leb k e) || holds ranges k

-- Whether byte `k` lies between two neighbours that are at most `gap` bytes apart.
unfoldable pub in_gap : ℕ → ByteRanges → ℕ → Bool
in_gap gap [] k = false
in_gap gap ((s, e) ∷ []) k = false
in_gap gap ((s, e) ∷ (s', e') ∷ ranges) k =
    (ltb e k && ltb k s' && leb (s' - (e + 1)) gap) || in_gap gap ((s', e') ∷ ranges) k

-- Ranges that are not empty, ascend from `lo` on and do not overlap.
abbrev pub IsAscending : ℕ → ByteRanges → Type 0
IsAscending lo [] = Unit
IsAscending lo ((s, e) ∷ ranges) = (lo ≤ s) × (s ≤ e) × IsAscending (suc e) ranges

-- The same, with more than `gap` bytes between any two neighbours.
abbrev pub IsApart : ℕ → ℕ → ByteRanges → Type 0
IsApart gap lo [] = Unit
IsApart gap lo ((s, e) ∷ ranges) = (lo ≤ s) × (s ≤ e) × IsApart gap (e + 2 + gap) ranges

-- The merged ranges in one pass, with no vector of those before.
direct : ℕ → ℕ → ℕ → ByteRanges → ByteRanges
direct gap start end [] = (start, end) ∷ []
direct gap start end ((s, e) ∷ ranges) =
    let joined = direct gap start e ranges in
    let apart = direct gap s e ranges in
    if leb (s - (end + 1)) gap then joined else (start, end) ∷ apart

loop-direct :
    (gap : ℕ) (merged : ByteRanges) (start end : ℕ) (ranges : ByteRanges)
    → merge_loop gap merged start end ranges ≡ merged ++ direct gap start end ranges
unfolding merge_loop direct
loop-direct gap merged start end [] = refl
loop-direct gap merged start end ((s, e) ∷ ranges) = elim (Bool-cases (leb (s - (end + 1)) gap)) [
  | inl near ↦ rw near (loop-direct gap merged start e ranges)
  | inr far ↦ rw far (
      loop-direct gap (merged ++ ((start, end) ∷ [])) s e ranges
      ∙ append_assoc merged ((start, end) ∷ []) (direct gap s e ranges))
]

in_gap-start :
    (gap s s' e : ℕ) (ranges : ByteRanges) (k : ℕ)
    → in_gap gap ((s, e) ∷ ranges) k ≡ in_gap gap ((s', e) ∷ ranges) k
unfolding in_gap
in_gap-start gap s s' e [] k = refl
in_gap-start gap s s' e ((t, f) ∷ ranges) k = refl

direct-holds :
    (gap start end : ℕ) (ranges : ByteRanges) (k : ℕ)
    → start ≤ end
    → IsAscending (suc end) ranges
    → holds (direct gap start end ranges) k
      ≡ (holds ((start, end) ∷ ranges) k || in_gap gap ((start, end) ∷ ranges) k)
unfolding direct holds in_gap
direct-holds gap start end [] k h asc = ground arith
direct-holds gap start end ((s, e) ∷ ranges) k h asc = elim (Bool-cases (leb (s - (end + 1)) gap)) [
  | inl near ↦ rw near (
      ground (
        arith,
        direct-holds gap start e ranges k (omega arith) asc.2,
        in_gap-start gap start s e ranges k,
      ))
  | inr far ↦ rw far (ground (arith, direct-holds gap s e ranges k asc.1 asc.2))
]

direct-IsApart :
    (gap start end lo : ℕ) (ranges : ByteRanges)
    → lo ≤ start
    → start ≤ end
    → IsAscending (suc end) ranges
    → IsApart gap lo (direct gap start end ranges)
unfolding direct
direct-IsApart gap start end lo [] h k asc = (h, k, tt)
direct-IsApart gap start end lo ((s, e) ∷ ranges) h k asc =
    elim (Bool-cases (leb (s - (end + 1)) gap)) [
      | inl near ↦ rw near (direct-IsApart gap start e lo ranges h (omega arith) asc.2)
      | inr far ↦
          rw far (h, k, direct-IsApart gap s e (end + 2 + gap) ranges (ground arith) asc.1 asc.2)
    ]

merge-direct :
    (start end gap : ℕ) (ranges : ByteRanges)
    → merge_byte_ranges ((start, end) ∷ ranges) gap ≡ direct gap start end ranges
unfolding merge_byte_ranges direct
merge-direct start end gap [] = refl
merge-direct start end gap (next ∷ ranges) = loop-direct gap [] start end (next ∷ ranges)

-- For ascending ranges that do not overlap: the merged ranges hold the bytes of the given ranges,
-- and besides them exactly the bytes between two neighbours that are at most `gap_threshold` bytes
-- apart.
pub merge_byte_ranges-holds :
    (ranges : ByteRanges) (gap_threshold k : ℕ)
    → IsAscending 0 ranges
    → holds (merge_byte_ranges ranges gap_threshold) k
      ≡ (holds ranges k || in_gap gap_threshold ranges k)
unfolding merge_byte_ranges holds in_gap
merge_byte_ranges-holds [] gap_threshold k asc = refl
merge_byte_ranges-holds ((start, end) ∷ ranges) gap_threshold k asc =
    ap (λ rs. holds rs k) (merge-direct start end gap_threshold ranges)
    ∙ direct-holds gap_threshold start end ranges k asc.1 asc.2

-- For ascending ranges that do not overlap: after the merge, any two neighbours are more than
-- `gap_threshold` bytes apart.
pub merge_byte_ranges-IsApart :
    (ranges : ByteRanges) (gap_threshold : ℕ)
    → IsAscending 0 ranges
    → IsApart gap_threshold 0 (merge_byte_ranges ranges gap_threshold)
unfolding merge_byte_ranges
merge_byte_ranges-IsApart [] gap_threshold asc = tt
merge_byte_ranges-IsApart ((start, end) ∷ ranges) gap_threshold asc =
    rw (merge-direct start end gap_threshold ranges)
      (direct-IsApart gap_threshold start end 0 ranges asc.0 asc.1 asc.2)
