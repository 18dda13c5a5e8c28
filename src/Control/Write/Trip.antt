-- ===== src/Control/Write/Trip.antt =====
-- A control file that `write` of src/control.rs writes is read back by `parse`.
pub mod Values
pub mod Fields
use mathlib.Core.List.{append_assoc, append-nil}
use zsync_rs.Prelude.{
  ℕ, zero, suc, ◌+◌, ◌-◌, ◌*◌, ◌/◌, ◌^◌, ◌≤◌, ◌<◌, ◌≡◌, refl, sym, ap, ◌∙◌, arith, true, List, [],
  ◌∷◌, ◌++◌, map, length, length-append, codes, leb, All, All-append, Option, none, some,
  OptionHolds,
}
use zsync_rs.Control.{Bytes, BlockChecksum, HashLengths, ControlFile, max_blocksize}
use zsync_rs.Control.Text.Lines.{IsText, IsKeyByte}
use zsync_rs.Control.Decimal.{parse_uint, print_uint}
use zsync_rs.Control.Decimal.Trip.{print_uint-IsDigit, parse_uint-print_uint}
use zsync_rs.Control.Generate.{is_power_of_two}
use zsync_rs.Control.Records.{read_block_checksums, write_blocks}
use zsync_rs.Control.Records.Trip.{IsAccepted, IsBlock, kept, read_block_checksums-write_blocks}
use zsync_rs.Control.Header.{
  Result, ok, err, ◌>>=◌, Header, no_header, max_header_bytes, max_blocks, apply_field,
  parse_blocksize, parse_lengths, finish, is_accepted, header_loop, parse_capped, parse,
}
use zsync_rs.Control.Header.Lines.{
  IsLine, apply_fields, bind_assoc, bind_cong, header_loop-write_lines,
}
use zsync_rs.Control.Write.{optional, print_lengths, fields, write_lines, write}
use zsync_rs.Control.Write.Trip.Values.{
  print_uint-IsText, print_lengths-IsText, parse_lengths-print_lengths,
}
use zsync_rs.Control.Write.Trip.Fields.{IsWritable, header_of, apply_fields-fields, fields-IsLine}

finish-header_of :
    (c : ControlFile) (w : IsWritable c) (rest : Bytes)
    → finish (header_of c) (write_blocks c.hash_lengths c.block_checksums ++ rest)
      ≡ ok (record c { block_checksums = map (kept c.hash_lengths) c.block_checksums })
unfolding finish
finish-header_of c w rest =
    let e : leb (length c.block_checksums) max_blocks ≡ true = ground (arith, w.blocks_fit) in
    rw
      (
        w.counted,
        e,
        read_block_checksums-write_blocks c.hash_lengths w.accepted c.block_checksums rest w.blocks,
      )
      refl

length_lines : (lines : List (Bytes × Bytes)) → length lines ≤ length (write_lines lines)
unfolding write_lines
length_lines [] = omega arith
length_lines ((key, value) ∷ lines) = omega (
  arith,
  length_lines lines,
  length-append ((key ++ (b':' ∷ b' ' ∷ value)) ++ (b'\n' ∷ [])) (write_lines lines),
  length-append (key ++ (b':' ∷ b' ' ∷ value)) (b'\n' ∷ []),
)

parse_capped-write :
    (cap : ℕ) (c : ControlFile) (rest : Bytes)
    → IsWritable c
    → length (write_lines (fields c)) < cap
    → parse_capped cap (write c ++ rest)
      ≡ ok (record c { block_checksums = map (kept c.hash_lengths) c.block_checksums })
unfolding parse_capped write
parse_capped-write cap c rest w fits =
    let blocks : Bytes = write_blocks c.hash_lengths c.block_checksums in
    ap (λ r. header_loop (suc cap) cap r no_header >>= λ p. finish p.0 p.1)
      (append_assoc (write_lines (fields c)) (b'\n' ∷ blocks) rest)
    ∙ ap (λ (r : Result (Header × Bytes)). r >>= λ p. finish p.0 p.1)
        (header_loop-write_lines (fields c) (suc cap) cap (blocks ++ rest) no_header
            (fields-IsLine c w) fits (omega (arith, fits, length_lines (fields c)))
          ∙ ap (λ (r : Result Header). r >>= λ h. ok (h, blocks ++ rest)) (apply_fields-fields c w))
    ∙ finish-header_of c w rest

-- A control file whose text fields are single UTF-8 lines with nothing to trim, whose numbers, hash
-- lengths and SHA-1 are in the ranges that `parse` asks for, which has a record for each block and
-- a header below the cap, is read back by `parse` from what `write` writes, whatever follows: with
-- the same fields, and each block cut down to what its record keeps.
pub parse-write :
    (c : ControlFile) (rest : Bytes)
    → IsWritable c
    → parse (write c ++ rest)
      ≡ ok (record c { block_checksums = map (kept c.hash_lengths) c.block_checksums })
unfolding parse
parse-write c rest w = parse_capped-write max_header_bytes c rest w w.header_fits
