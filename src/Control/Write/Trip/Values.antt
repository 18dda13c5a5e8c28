-- ===== src/Control/Write/Trip/Values.antt =====
-- The values that `write` prints from numbers are texts, and are read back.
use zsync_rs.Prelude.{
  ℕ, ◌-◌, ◌^◌, ◌≤◌, ◌<◌, ◌≡◌, ◌≢◌, refl, ap, ◌∙◌, arith, true, false, [], ◌∷◌, ◌++◌, leb, ◌==◌, All,
  All-append, All-map,
}
use zsync_rs.Control.{Bytes, HashLengths, max_blocksize}
use zsync_rs.Control.Generate.{is_power_of_two}
use zsync_rs.Control.Text.{trim_start, trim_end, keep_blank, split, onto_first}
use zsync_rs.Control.Text.Lines.{IsText, is_utf8_ascii}
use zsync_rs.Control.Decimal.{print_uint}
use zsync_rs.Control.Decimal.Trip.{IsDigit, print_uint-IsDigit, parse_uint-print_uint}
use zsync_rs.Control.Records.Trip.{IsAccepted}
use zsync_rs.Control.Header.{ok, is_accepted, parse_lengths, parse_blocksize}
use zsync_rs.Control.Write.{print_lengths}

-- A printed byte that is not blank.
abbrev pub IsSymbol : ℕ → Type 0
IsSymbol c = (b'!' ≤ c) × (c ≤ b'~')

trim_start-IsSymbol : (v : Bytes) → All IsSymbol v → trim_start v ≡ v
unfolding trim_start
trim_start-IsSymbol [] h = refl
trim_start-IsSymbol (c ∷ v) h = let e : (c == b' ') ≡ false = ground arith in rw e refl

trim_end-IsSymbol : (v : Bytes) → All IsSymbol v → trim_end v ≡ v
unfolding trim_end keep_blank
trim_end-IsSymbol [] h = refl
trim_end-IsSymbol (c ∷ []) h = ground arith
trim_end-IsSymbol (c ∷ d ∷ v) h = ap (keep_blank c) (trim_end-IsSymbol (d ∷ v) h.1)

pub IsSymbol-IsText : (v : Bytes) → All IsSymbol v → IsText v
IsSymbol-IsText v h = record {
  whole = is_utf8_ascii v (All-map IsSymbol (λ c. c < 0x80) v (λ c k. omega arith) h);
  one_line = All-map IsSymbol (λ c. c ≢ b'\n') v (λ c k. omega arith) h;
  trimmed_start = trim_start-IsSymbol v h;
  trimmed_end = trim_end-IsSymbol v h;
}

digit_symbols : (n : ℕ) → All IsSymbol (print_uint n)
digit_symbols n =
    All-map IsDigit IsSymbol (print_uint n) (λ c k. (omega arith, omega arith))
      (print_uint-IsDigit n)

pub print_uint-IsText : (n : ℕ) → IsText (print_uint n)
print_uint-IsText n = IsSymbol-IsText (print_uint n) (digit_symbols n)

pub print_lengths-IsText : (lengths : HashLengths) → IsText (print_lengths lengths)
unfolding print_lengths
print_lengths-IsText lengths = IsSymbol-IsText _ (
    All-append IsSymbol (print_uint lengths.seq_matches) _ (digit_symbols lengths.seq_matches) (
      (omega arith, omega arith),
      All-append IsSymbol (print_uint lengths.rsum_bytes) _ (digit_symbols lengths.rsum_bytes)
          ((omega arith, omega arith), digit_symbols lengths.checksum_bytes),
    ))

split-append :
    (part rest : Bytes)
    → All IsDigit part
    → split b',' (part ++ (b',' ∷ rest)) ≡ part ∷ split b',' rest
unfolding split
split-append [] rest h = refl
split-append (c ∷ part) rest h =
    let e : (c == b',') ≡ false = ground arith in
    rw (e, split-append part rest h.1) (unfold onto_first in refl)

split_last : (part : Bytes) → All IsDigit part → split b',' part ≡ part ∷ []
unfolding split
split_last [] h = refl
split_last (c ∷ part) h =
    let e : (c == b',') ≡ false = ground arith in
    rw (e, split_last part h.1) (unfold onto_first in refl)

is_accepted-IsAccepted : (lengths : HashLengths) → IsAccepted lengths → is_accepted lengths ≡ true
unfolding is_accepted
is_accepted-IsAccepted lengths h = ground (arith, h.seq_range, h.rsum_range, h.checksum_range)

-- `Hash-Lengths` with lengths that are accepted is read back.
pub parse_lengths-print_lengths :
    (lengths : HashLengths)
    → IsAccepted lengths
    → parse_lengths (print_lengths lengths) (split b',' (print_lengths lengths)) ≡ ok lengths
unfolding parse_lengths print_lengths
parse_lengths-print_lengths lengths h =
    let parts =
      split-append (print_uint lengths.seq_matches) _ (print_uint-IsDigit lengths.seq_matches)
      ∙ ap (λ t. print_uint lengths.seq_matches ∷ t)
          (split-append (print_uint lengths.rsum_bytes) _ (print_uint-IsDigit lengths.rsum_bytes)
            ∙ ap (λ t. print_uint lengths.rsum_bytes ∷ t)
                (split_last (print_uint lengths.checksum_bytes)
                  (print_uint-IsDigit lengths.checksum_bytes))) in
    rw
      (
        parts,
        parse_uint-print_uint 255 lengths.seq_matches (omega (arith, h.seq_range)),
        parse_uint-print_uint 255 lengths.rsum_bytes (omega (arith, h.rsum_range)),
        parse_uint-print_uint 255 lengths.checksum_bytes (omega (arith, h.checksum_range)),
        is_accepted-IsAccepted lengths h,
      )
      refl

-- `Blocksize` with a power of two that is accepted is read back.
pub parse_blocksize-print_uint :
    (n : ℕ)
    → is_power_of_two 64 n ≡ true
    → n ≤ max_blocksize
    → parse_blocksize (print_uint n) ≡ ok n
unfolding parse_blocksize
parse_blocksize-print_uint n power fits =
    let e : leb n max_blocksize ≡ true = ground arith in
    rw (parse_uint-print_uint (2 ^ 64 - 1) n (omega arith), power, e) refl
