-- ===== src/Cli/Output.antt =====
-- `default_output` of src/bin/zsync.rs: where a target is put when no name is given.
pub mod Segment
use zsync_rs.Prelude.{
  ℕ, ◌-◌, Bool, ◌&&◌, ◌||◌, List, [], ◌∷◌, length, take, drop, leb, ◌==◌, bytes_eq, codes,
  if◌then◌else◌,
}
use zsync_rs.Control.Text.{split}
use zsync_rs.Cli.Json.{Text}

-- `split(['?', '#']).next()`
unfoldable pub without_query : Text → Text
without_query [] = []
without_query (c ∷ url) =
    let rest = without_query url in if c == b'?' || c == b'#' then [] else c ∷ rest

-- `rsplit('/').next()`
unfoldable pub last_part : List Text → Text
last_part [] = []
last_part (part ∷ []) = part
last_part (part ∷ next ∷ parts) = last_part (next ∷ parts)

-- `strip_suffix(suffix).unwrap_or(name)`
unfoldable pub strip_suffix : Text → Text → Text
strip_suffix suffix name =
    let kept = length name - length suffix in
    if leb (length suffix) (length name) && bytes_eq (drop kept name) suffix
    then take kept name
    else name

unfoldable pub default_output : Text → Text
unfolding without_query last_part strip_suffix
default_output url =
    let name = strip_suffix (codes ".zsync") (last_part (split b'/' (without_query url))) in
    if length name == 0 then codes "output" else name
