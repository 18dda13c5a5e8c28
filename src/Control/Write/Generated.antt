-- ===== src/Control/Write/Generated.antt =====
-- A control file that `generate` of src/control.rs makes is read back by `parse` once `write` has
-- written it.
use zsync_rs.Prelude.{
  ℕ, zero, suc, ◌+◌, ◌*◌, ◌/◌, ◌%◌, ◌^◌, ◌≤◌, ◌<◌, ◌≡◌, refl, sym, ap, ◌∙◌, arith, [], ◌∷◌, map,
  length, All, Option, true,
}
use mathlib.Core.Path.{subst}
use mathlib.Core.List.{append-nil}
use zsync_rs.Rsum.Roll.{calc_rsum_block_closed}
use zsync_rs.Control.{Bytes, ControlFile, max_blocksize}
use zsync_rs.Control.Hex.{hex_digit, hex_encode}
use zsync_rs.Control.Text.Lines.{IsText}
use zsync_rs.Control.Generate.{
  Logarithms, Generated, generate, control_of, checksum_block, checksum_blocks, count_blocks,
  padded_block, is_power_of_two,
}
use zsync_rs.Control.Generate.Lengths.{calculate_hash_lengths-IsAccepted}
use zsync_rs.Control.Generate.Blocks.{length-checksum_blocks, generate-control_of}
use zsync_rs.Control.Records.Trip.{IsAccepted, IsBlock, kept}
use zsync_rs.Control.Header.{ok, max_header_bytes, max_blocks, parse}
use zsync_rs.Control.Write.{fields, write_lines, write}
use zsync_rs.Control.Write.Trip.{parse-write}
use zsync_rs.Control.Write.Trip.Fields.{IsWritable}
use zsync_rs.Control.Write.Trip.Values.{IsSymbol, IsSymbol-IsText}

hex_digit-IsSymbol : (d : ℕ) → d < 16 → IsSymbol (hex_digit d)
unfolding hex_digit
hex_digit-IsSymbol d h = (ground arith, ground arith)

hex_encode-IsSymbol : (bytes : Bytes) → All (λ b. b < 256) bytes → All IsSymbol (hex_encode bytes)
unfolding hex_encode
hex_encode-IsSymbol [] h = tt
hex_encode-IsSymbol (b ∷ bytes) h = (
  hex_digit-IsSymbol (b / 16) (omega arith),
  (hex_digit-IsSymbol (b % 16) (omega arith), hex_encode-IsSymbol bytes h.1),
)

length-hex_encode : (bytes : Bytes) → length (hex_encode bytes) ≡ 2 * length bytes
unfolding hex_encode
length-hex_encode [] = refl
length-hex_encode (b ∷ bytes) = omega (arith, length-hex_encode bytes)

module _ (md4 sha1 : Bytes → Bytes) (logs : Logarithms)
    (md4_size : (bytes : Bytes) → length (md4 bytes) ≡ 16)
    (sha1_size : (bytes : Bytes) → length (sha1 bytes) ≡ 20)
    (sha1_bytes : (bytes : Bytes) → All (λ b. b < 256) (sha1 bytes)) where
  checksum_blocks-IsBlock :
      (input : Bytes) (blocksize i rounds : ℕ)
      → All IsBlock (checksum_blocks md4 sha1 logs input blocksize i rounds)
  unfolding checksum_blocks checksum_block
  checksum_blocks-IsBlock input blocksize i zero = tt
  checksum_blocks-IsBlock input blocksize i (suc rounds) =
      let block = padded_block input blocksize i in
      let (a, b) = calc_rsum_block_closed block in
      (
        (omega (arith, a), omega (arith, b), md4_size block),
        checksum_blocks-IsBlock input blocksize (i + 1) rounds,
      )

  module _ (input filename url : Bytes) (blocksize : ℕ) where
    abbrev made : ControlFile
    made = control_of md4 sha1 logs input filename url blocksize

    made-IsWritable :
        is_power_of_two 64 blocksize ≡ true
        → blocksize ≤ max_blocksize
        → IsText filename
        → IsText url
        → length input < 2 ^ 64
        → IsAccepted made.hash_lengths
        → length made.block_checksums ≤ max_blocks
        → length (write_lines (fields made)) < max_header_bytes
        → IsWritable made
    unfolding control_of
    made-IsWritable power block_fits name_text url_text input_fits accepted blocks_fit header_fits =
        record {
          version_text = IsSymbol-IsText _ (omega arith);
          filename_text = name_text;
          mtime_text = tt;
          url_texts = (url_text, tt);
          sha1_text = (
            IsSymbol-IsText _ (hex_encode-IsSymbol (sha1 input) (sha1_bytes input)),
            omega (arith, length-hex_encode (sha1 input), sha1_size input),
          );
          power = power;
          block_fits = block_fits;
          length_fits = omega arith;
          accepted = accepted;
          blocks = checksum_blocks-IsBlock input blocksize 0 (count_blocks input blocksize);
          counted = sym (
              length-checksum_blocks md4 sha1 logs input blocksize 0
                (count_blocks input blocksize));
          blocks_fit = blocks_fit;
          header_fits = header_fits;
        }

  -- If MD4 gives 16 bytes and SHA-1 gives 20: from what `write` writes for a control file that
  -- `generate` makes, `parse` gives that control file with each block checksum cut to the bytes
  -- that its hash lengths keep, when the file name and the URL are single UTF-8 lines with nothing
  -- to trim, the length fits 64 bits, the blocks are at most 2^26, and the header is below the cap.
  pub parse-write-generate :
      (input filename url : Bytes) (requested : Option ℕ) (control : ControlFile)
      → generate md4 sha1 logs input filename url requested ≡ Generated.ok control
      → IsText filename
      → IsText url
      → length input < 2 ^ 64
      → length control.block_checksums ≤ max_blocks
      → length (write_lines (fields control)) < max_header_bytes
      → parse (write control)
        ≡ ok (record control {
          block_checksums = map (kept control.hash_lengths) control.block_checksums;
        })
  unfolding control_of
  parse-write-generate input filename url requested control e name_text url_text input_fits
        blocks_fit header_fits =
      let (blocksize, _, power, block_fits, made) =
        generate-control_of md4 sha1 logs input filename url requested control e in
      ap parse (sym (append-nil (write control)))
      ∙ parse-write control [] (
          subst IsWritable (sym made) (
            made-IsWritable input filename url blocksize power block_fits name_text url_text
              input_fits (calculate_hash_lengths-IsAccepted logs (length input) blocksize)
              (subst (λ c. length c.block_checksums ≤ max_blocks) made blocks_fit)
              (subst (λ c. length (write_lines (fields c)) < max_header_bytes) made header_fits)))
