-- ===== src/Control/Text.antt =====
-- The functions of Rust's standard library by which `parse` in src/control.rs reads a header: UTF-8,
-- lines, and pieces of a line. Text is a list of its bytes.
pub mod Lines
use zsync_rs.Prelude.{
  ℕ, zero, suc, ◌-◌, Bool, true, false, not, ◌&&◌, ◌||◌, List, [], ◌∷◌, ltb, leb, ◌==◌,
  if◌then◌else◌, Option, none, some,
}
use zsync_rs.Control.{Bytes}

-- How many bytes of a character are still to come, and the range of the next one.
pub record Utf8 : Type 0 where
  pub pending : ℕ
  pub low : ℕ
  pub high : ℕ

abbrev pub utf8_start : Utf8
utf8_start = record { pending = 0; low = 0x80; high = 0xbf }

abbrev between : ℕ → ℕ → ℕ → Bool
between low high c = leb low c && leb c high

-- The state after the first byte of a character.
utf8_first : ℕ → Option Utf8
utf8_first c =
    if ltb c 0x80
    then some utf8_start
    else if between 0xc2 0xdf c
    then some (record { pending = 1; low = 0x80; high = 0xbf })
    else if c == 0xe0
    then some (record { pending = 2; low = 0xa0; high = 0xbf })
    else if c == 0xed
    then some (record { pending = 2; low = 0x80; high = 0x9f })
    else if between 0xe1 0xef c
    then some (record { pending = 2; low = 0x80; high = 0xbf })
    else if c == 0xf0
    then some (record { pending = 3; low = 0x90; high = 0xbf })
    else if between 0xf1 0xf3 c
    then some (record { pending = 3; low = 0x80; high = 0xbf })
    else if c == 0xf4
    then some (record { pending = 3; low = 0x80; high = 0x8f })
    else none

utf8_step : Utf8 → ℕ → Option Utf8
unfolding utf8_first
utf8_step u c =
    if u.pending == 0
    then utf8_first c
    else if between u.low u.high c
    then some (record { pending = u.pending - 1; low = 0x80; high = 0xbf })
    else none

pub utf8_run : Utf8 → Bytes → Option Utf8
unfolding utf8_step
utf8_run u [] = some u
utf8_run u (c ∷ cs) = elim (utf8_step u c) [ none ↦ none | some u' ↦ utf8_run u' cs ]

ends_whole : Option Utf8 → Bool
ends_whole none = false
ends_whole (some u) = u.pending == 0

-- `str::from_utf8(bytes).is_ok()`
unfoldable pub is_utf8 : Bytes → Bool
unfolding utf8_run ends_whole
is_utf8 bytes = ends_whole (utf8_run utf8_start bytes)

-- `read_line` on a reader that is cut at `limit` bytes: the line, with its newline, and the rest.
unfoldable pub read_line : ℕ → Bytes → Bytes × Bytes
read_line zero bytes = ([], bytes)
read_line (suc limit) [] = ([], [])
read_line (suc limit) (c ∷ cs) =
    let rest = read_line limit cs in if c == b'\n' then (c ∷ [], cs) else (c ∷ rest.0, rest.1)

abbrev is_blank : ℕ → Bool
is_blank c = c == b'\n' || c == b'\r' || c == b' '

-- A byte in front of what is left of the text behind it.
unfoldable pub keep_blank : ℕ → Bytes → Bytes
keep_blank c [] = if is_blank c then [] else c ∷ []
keep_blank c (d ∷ ds) = c ∷ d ∷ ds

-- `trim_end_matches(['\n', '\r', ' '])`
unfoldable pub trim_end : Bytes → Bytes
unfolding keep_blank
trim_end [] = []
trim_end (c ∷ cs) = keep_blank c (trim_end cs)

-- `trim_start_matches(' ')`
unfoldable pub trim_start : Bytes → Bytes
trim_start [] = []
trim_start (c ∷ cs) = if c == b' ' then trim_start cs else c ∷ cs

-- `split_once(separator)`
unfoldable pub split_once : ℕ → Bytes → Option (Bytes × Bytes)
split_once separator [] = none
split_once separator (c ∷ cs) =
    let rest = split_once separator cs in
    if c == separator
    then some ([], cs)
    else elim rest [ none ↦ none | some (before, after) ↦ some (c ∷ before, after) ]

-- A byte in front of the first part.
unfoldable pub onto_first : ℕ → List Bytes → List Bytes
onto_first c [] = (c ∷ []) ∷ []
onto_first c (part ∷ parts) = (c ∷ part) ∷ parts

-- `split(separator)`
unfoldable pub split : ℕ → Bytes → List Bytes
unfolding onto_first
split separator [] = [] ∷ []
split separator (c ∷ cs) =
    let rest = split separator cs in if c == separator then [] ∷ rest else onto_first c rest
