-- ===== src/Assembly/Urls.antt =====
-- `extract_base_url` and `resolve_url` of src/assembly.rs, on the bytes of the text.
pub mod Split
use zsync_rs.Prelude.{ℕ, suc, ◌+◌, Bool, true, false, List, [], ◌∷◌, ◌++◌}
use zsync_rs.Prelude.{take, drop, length, ◌==◌, if◌then◌else◌, ◌||◌, ◌&&◌, Option, none, some}
use zsync_rs.Control.{Bytes}

-- `url.split(['?', '#']).next()`
unfoldable pub path_of : Bytes → Bytes
path_of [] = []
path_of (c ∷ cs) = let rest = path_of cs in if c == b'?' || c == b'#' then [] else c ∷ rest

-- A byte in front of what is kept behind it; in front of nothing, only a slash is kept.
unfoldable pub keep_slash : ℕ → Bytes → Bytes
keep_slash c [] = if c == b'/' then c ∷ [] else []
keep_slash c (d ∷ ds) = c ∷ d ∷ ds

-- `path[..=i]` for the last slash at `i`, and nothing without one.
unfoldable pub through_last_slash : Bytes → Bytes
unfolding keep_slash
through_last_slash [] = []
through_last_slash (c ∷ cs) = keep_slash c (through_last_slash cs)

unfoldable pub extract_base_url : Bytes → Bytes
extract_base_url url = through_last_slash (path_of url)

-- Where "://" starts.
unfoldable pub find_scheme : Bytes → Option ℕ
find_scheme (a ∷ b ∷ c ∷ cs) =
    let rest = find_scheme (b ∷ c ∷ cs) in
    if a == b':' && (b == b'/' && c == b'/')
    then some 0
    else elim rest [ none ↦ none | some i ↦ some (suc i) ]
find_scheme _ = none

unfoldable pub find_slash : Bytes → Option ℕ
find_slash [] = none
find_slash (c ∷ cs) =
    let rest = find_slash cs in
    if c == b'/' then some 0 else elim rest [ none ↦ none | some i ↦ some (suc i) ]

unfoldable pub starts_with_slash : Bytes → Bool
starts_with_slash [] = false
starts_with_slash (c ∷ cs) = c == b'/'

-- `base[..host_end]`
unfoldable pub host_of : Bytes → Bytes
host_of base =
    let scheme_end : ℕ = elim (find_scheme base) [ none ↦ 0 | some i ↦ i + 3 ] in
    elim (find_slash (drop scheme_end base)) [ none ↦ base | some i ↦ take (scheme_end + i) base ]

unfoldable pub resolve_url : Bytes → Bytes → Bytes
unfolding host_of
resolve_url base relative = elim (find_scheme relative) [
  | some i ↦ relative
  | none ↦ if starts_with_slash relative then host_of base ++ relative else base ++ relative
]
