-- ===== src/Cli/Bar.antt =====
-- The progress bar of src/bin/zsync.rs: `whole_percent`, `render_bar`, `format_bytes` and `format_pct`.
-- An `i32` is its 32-bit pattern.
pub mod Range
use zsync_rs.Prelude.{
  ℕ, ◌+◌, ◌-◌, ◌*◌, ◌/◌, ◌%◌, ◌^◌, min, List, [], ◌∷◌, ◌++◌, length, replicate, ltb, leb, ◌==◌,
  codes, if◌then◌else◌,
}
use zsync_rs.Control.Decimal.{print_uint}
use zsync_rs.Cli.Json.{Text}

abbrev pub bar_width : ℕ
bar_width = 30

-- `done.saturating_mul(100).checked_div(total).unwrap_or(100) as i32`
unfoldable pub whole_percent : ℕ → ℕ → ℕ
whole_percent done total =
    (if total == 0 then 100 else min (done * 100) (2 ^ 64 - 1) / total) % 2 ^ 32

-- `clamp(0, 100)`
unfoldable pub clamped : ℕ → ℕ
clamped percent = if leb (2 ^ 31) percent then 0 else min percent 100

-- `{percent}`
unfoldable pub print_i32 : ℕ → Text
print_i32 n = if ltb n (2 ^ 31) then print_uint n else b'-' ∷ print_uint (2 ^ 32 - n)

-- `{text:>3}`
abbrev padded : Text → Text
padded text = replicate (3 - length text) b' ' ++ text

-- The characters between the brackets.
unfoldable pub cells : ℕ → ℕ → Text
unfolding whole_percent clamped
cells done total =
    let filled = clamped (whole_percent done total) * bar_width / 100 in
    replicate filled b'#' ++ replicate (bar_width - filled) b' '

-- `percent2 done total` is the text of `done / total * 100` in floating point with two decimals.
unfoldable pub format_pct : (ℕ → ℕ → Text) → ℕ → ℕ → Text
format_pct percent2 done total = if total == 0 then codes "100.00" else percent2 done total

-- `fixed2 n unit` is the text of `n / unit` in floating point with two decimals.
module _ (fixed2 : ℕ → ℕ → Text) where
  unfoldable pub format_bytes : ℕ → Text
  format_bytes bytes =
      if leb (1024 ^ 4) bytes
      then fixed2 bytes (1024 ^ 4) ++ codes " TB"
      else if leb (1024 ^ 3) bytes
      then fixed2 bytes (1024 ^ 3) ++ codes " GB"
      else if leb (1024 ^ 2) bytes
      then fixed2 bytes (1024 ^ 2) ++ codes " MB"
      else if leb 1024 bytes
      then fixed2 bytes 1024 ++ codes " KB"
      else print_uint bytes ++ codes " B"

  unfoldable pub render_bar : ℕ → ℕ → Text
  unfolding cells format_bytes
  render_bar done total =
      codes "  ["
      ++ (cells done total
          ++ (codes "] "
              ++ (padded (print_uint (clamped (whole_percent done total)))
                  ++ (codes "%  " ++ (format_bytes done ++ (codes " / " ++ format_bytes total))))))
