-- ===== src/Control/Header.antt =====
-- `parse` of src/control.rs. The input is in memory, so that reading it fails only at its end, and
-- `usize` has 64 bits.
mod Tests
pub mod Lines
pub mod Sound
pub mod Loop
pub mod Parsed
use zsync_rs.Prelude.{
  ℕ, zero, suc, ◌+◌, ◌-◌, ◌*◌, ◌/◌, ◌^◌, Bool, true, false, not, ◌&&◌, ◌||◌, List, [], ◌∷◌, ◌++◌,
  length, ltb, leb, ◌==◌, bytes_eq, codes, if◌then◌else◌, Option, none, some,
}
use zsync_rs.Control.{
  Bytes, BlockChecksum, HashLengths, ControlFile, default_hash_lengths, max_blocksize, ParseError,
}
use zsync_rs.Control.Text.{is_utf8, read_line, trim_end, trim_start, split_once, split}
use zsync_rs.Control.Decimal.{parse_uint, print_uint}
use zsync_rs.Control.Generate.{is_power_of_two}
use zsync_rs.Control.Records.{read_block_checksums}

pub data Result {ℓ} (A : Type ℓ) : Type ℓ where
  ok : A → Result A
  err : ParseError → Result A

infixl 5 ◌>>=◌
abbrev pub ◌>>=◌ {ℓ κ} : {A : Type ℓ} {B : Type κ} → Result A → (A → Result B) → Result B
ok a >>= f = f a
err e >>= f = err e

-- `ok_or_else` and `map_err`.
abbrev pub ok_or {ℓ} : {A : Type ℓ} → Option A → ParseError → Result A
ok_or none e = err e
ok_or (some a) e = ok a

-- `if !test { return Err(e) }`
abbrev pub ensure : Bool → ParseError → Result (Unit {0})
ensure true e = ok tt
ensure false e = err e

abbrev pub max_header_bytes : ℕ
max_header_bytes = 2 ^ 20

abbrev pub max_blocks : ℕ
max_blocks = 64 * 1024 * 1024

-- The variables of the header loop.
pub record Header : Type 0 where
  pub version : Bytes
  pub filename : Option Bytes
  pub mtime : Option Bytes
  pub blocksize : Option ℕ
  pub file_length : Option ℕ
  pub hash_lengths : HashLengths
  pub urls : List Bytes
  pub sha1 : Option Bytes

abbrev pub no_header : Header
no_header = record {
  version = [];
  filename = none;
  mtime = none;
  blocksize = none;
  file_length = none;
  hash_lengths = default_hash_lengths;
  urls = [];
  sha1 = none;
}

-- The range checks of `Hash-Lengths`.
unfoldable pub is_accepted : HashLengths → Bool
is_accepted lengths =
    (leb 1 lengths.seq_matches && leb lengths.seq_matches 2)
    && (leb 1 lengths.rsum_bytes && leb lengths.rsum_bytes 4)
    && (leb 3 lengths.checksum_bytes && leb lengths.checksum_bytes 16)

-- The parts between the commas of `Hash-Lengths`.
unfoldable pub parse_lengths : Bytes → List Bytes → Result HashLengths
parse_lengths value (a ∷ b ∷ c ∷ []) = do
  seq_matches ← ok_or (parse_uint 255 a) (ParseError.invalid_hash_lengths value)
  rsum_bytes ← ok_or (parse_uint 255 b) (ParseError.invalid_hash_lengths value)
  checksum_bytes ← ok_or (parse_uint 255 c) (ParseError.invalid_hash_lengths value)
  let lengths : HashLengths = record {
    seq_matches = seq_matches;
    rsum_bytes = rsum_bytes;
    checksum_bytes = checksum_bytes;
  }
  _ ← ensure (is_accepted lengths) (ParseError.invalid_hash_lengths value)
  ok lengths
parse_lengths value _ = err (ParseError.invalid_hash_lengths value)

unfoldable pub parse_blocksize : Bytes → Result ℕ
parse_blocksize value = do
  bs ← ok_or (parse_uint (2 ^ 64 - 1) value) (ParseError.invalid_blocksize value)
  _ ← ensure (is_power_of_two 64 bs && leb bs max_blocksize) (ParseError.invalid_blocksize value)
  ok bs

-- `match key`
unfoldable pub apply_field : Bytes → Bytes → Header → Result Header
unfolding parse_lengths parse_blocksize
apply_field key value h =
    if bytes_eq key (codes "zsync")
    then ok (record h { version = value })
    else if bytes_eq key (codes "Filename")
    then ok (record h { filename = some value })
    else if bytes_eq key (codes "MTime")
    then ok (record h { mtime = some value })
    else if bytes_eq key (codes "Blocksize")
    then (parse_blocksize value >>= λ bs. ok (record h { blocksize = some bs }))
    else if bytes_eq key (codes "Length")
    then (ok_or (parse_uint (2 ^ 64 - 1) value) (ParseError.invalid_length value) >>= λ n.
        ok (record h { file_length = some n }))
    else if bytes_eq key (codes "URL")
    then ok (record h { urls = h.urls ++ (value ∷ []) })
    else if bytes_eq key (codes "Hash-Lengths")
    then (parse_lengths value (split b',' value) >>= λ l. ok (record h { hash_lengths = l }))
    else if bytes_eq key (codes "SHA-1")
    then (if length value == 40
        then ok (record h { sha1 = some value })
        else err (ParseError.invalid_header (codes "SHA-1 digest wrong length")))
    else ok h

-- A line that is not blank.
unfoldable pub apply_line : Bytes → Header → Result Header
apply_line trimmed h = do
  (key, value) ← ok_or (split_once b':' trimmed) (ParseError.invalid_header trimmed)
  apply_field key (trim_start value) h

-- The loop over the lines; the result has what follows the blank line. Each round but the last takes a
-- byte off the limit, so one round more than the limit is enough.
pub header_loop : ℕ → ℕ → Bytes → Header → Result (Header × Bytes)
unfolding apply_line
header_loop zero limit reader h = err (ParseError.header_too_large max_header_bytes)
header_loop (suc rounds) limit reader h =
    let (line, rest) = read_line limit reader in
    let trimmed = trim_end line in
    let more = λ (h' : Header). header_loop rounds (limit - length line) rest h' in
    if not (is_utf8 line)
    then err ParseError.io
    else if length line == 0
    then (if limit == 0
        then err (ParseError.header_too_large max_header_bytes)
        else err ParseError.unexpected_eof)
    else if length trimmed == 0
    then ok (h, rest)
    else (apply_line trimmed h >>= more)

-- What follows the header loop.
unfoldable pub finish : Header → Bytes → Result ControlFile
finish h reader = do
  blocksize ← ok_or h.blocksize (ParseError.missing_field (codes "Blocksize"))
  file_length ← ok_or h.file_length (ParseError.missing_field (codes "Length"))
  let num_blocks = (file_length + (blocksize - 1)) / blocksize
  _ ←
      ensure (leb num_blocks max_blocks)
        (ParseError.invalid_length (codes "too many blocks: " ++ print_uint num_blocks))
  block_checksums ← ok_or (read_block_checksums h.hash_lengths num_blocks reader) ParseError.io
  ok (record {
    version = h.version;
    filename = h.filename;
    mtime = h.mtime;
    blocksize = blocksize;
    file_length = file_length;
    hash_lengths = h.hash_lengths;
    urls = h.urls;
    sha1 = h.sha1;
    block_checksums = block_checksums;
  })

-- The whole, at a cap on the bytes of the header.
unfoldable pub parse_capped : ℕ → Bytes → Result ControlFile
unfolding header_loop finish
parse_capped cap reader = do (h, rest) ← header_loop (suc cap) cap reader no_header; finish h rest

unfoldable pub parse : Bytes → Result ControlFile
unfolding parse_capped
parse reader = parse_capped max_header_bytes reader
