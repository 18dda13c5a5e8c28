-- ===== src/Cli/Output/Segment.antt =====
-- The name that `default_output` of src/bin/zsync.rs picks.
use zsync_rs.Prelude.{
  ℕ, zero, suc, ◌-◌, ◌≤◌, ◌≢◌, arith, inl, inr, ◌&&◌, ◌||◌, List, [], ◌∷◌, length, take, drop, leb,
  ◌==◌, bytes_eq, codes, All, Bool-cases,
}
use zsync_rs.Control.Text.{split, onto_first}
use zsync_rs.Cli.Json.{Text}
use zsync_rs.Cli.Output.{without_query, last_part, strip_suffix, default_output}

-- A character of a path segment.
abbrev pub IsSegmentChar : ℕ → Type 0
IsSegmentChar c = (c ≢ b'/') × (c ≢ b'?') × (c ≢ b'#')

abbrev IsPathChar : ℕ → Type 0
IsPathChar c = (c ≢ b'?') × (c ≢ b'#')

without_query-IsPathChar : (url : Text) → All IsPathChar (without_query url)
unfolding without_query
without_query-IsPathChar [] = tt
without_query-IsPathChar (c ∷ url) = elim (Bool-cases (c == b'?' || c == b'#')) [
  | inl cut ↦ rw cut tt
  | inr kept ↦ rw kept ((ground arith, ground arith), without_query-IsPathChar url)
]

onto_first-IsSegmentChar :
    (c : ℕ) (parts : List Text)
    → IsSegmentChar c
    → All (All IsSegmentChar) parts
    → All (All IsSegmentChar) (onto_first c parts)
unfolding onto_first
onto_first-IsSegmentChar c [] h k = ((h, tt), tt)
onto_first-IsSegmentChar c (part ∷ parts) h k = ((h, k.0), k.1)

split-IsSegmentChar :
    (path : Text) → All IsPathChar path → All (All IsSegmentChar) (split b'/' path)
unfolding split
split-IsSegmentChar [] h = (tt, tt)
split-IsSegmentChar (c ∷ path) h = elim (Bool-cases (c == b'/')) [
  | inl slash ↦ rw slash (tt, split-IsSegmentChar path h.1)
  | inr other ↦ rw other (
      onto_first-IsSegmentChar c (split b'/' path) (ground arith, h.0.0, h.0.1)
        (split-IsSegmentChar path h.1))
]

last_part-IsSegmentChar :
    (parts : List Text) → All (All IsSegmentChar) parts → All IsSegmentChar (last_part parts)
unfolding last_part
last_part-IsSegmentChar [] h = tt
last_part-IsSegmentChar (part ∷ []) h = h.0
last_part-IsSegmentChar (part ∷ next ∷ parts) h = last_part-IsSegmentChar (next ∷ parts) h.1

All-take : (P : ℕ → Type 0) (n : ℕ) (xs : Text) → All P xs → All P (take n xs)
All-take P zero xs h = tt
All-take P (suc n) [] h = tt
All-take P (suc n) (x ∷ xs) h = (h.0, All-take P n xs h.1)

strip_suffix-IsSegmentChar :
    (suffix name : Text) → All IsSegmentChar name → All IsSegmentChar (strip_suffix suffix name)
unfolding strip_suffix
strip_suffix-IsSegmentChar suffix name h =
    let kept = length name - length suffix in
    elim (Bool-cases (leb (length suffix) (length name) && bytes_eq (drop kept name) suffix)) [
      | inl found ↦ rw found (All-take IsSegmentChar kept name h)
      | inr absent ↦ rw absent h
    ]

-- For any URL, the name that is picked is not empty and holds no slash, question mark or number
-- sign.
pub default_output-IsSegmentChar :
    (url : Text) → All IsSegmentChar (default_output url) × (1 ≤ length (default_output url))
unfolding default_output
default_output-IsSegmentChar url = elim (Bool-cases (length name == 0)) [
  | inl empty ↦ rw empty (omega arith, omega arith)
  | inr some_text ↦ rw some_text (named, ground arith)
]
  where
    name : Text
    name = strip_suffix (codes ".zsync") (last_part (split b'/' (without_query url)))

    named : All IsSegmentChar name
    named = strip_suffix-IsSegmentChar (codes ".zsync") _ (
        last_part-IsSegmentChar (split b'/' (without_query url))
          (split-IsSegmentChar (without_query url) (without_query-IsPathChar url)))
