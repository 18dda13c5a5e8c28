-- ===== src/Control/Write/Tests.antt =====
-- A small control file, written and read back.
use zsync_rs.Prelude.{
  ℕ, ◌*◌, ◌≤◌, ◌≡◌, refl, arith, [], ◌∷◌, ◌++◌, map, codes, length, replicate, none, some,
}
use zsync_rs.Control.{Bytes, ControlFile}
use zsync_rs.Control.Text.{is_utf8, trim_start, trim_end}
use zsync_rs.Control.Text.Lines.{IsText}
use zsync_rs.Control.Decimal.{print_uint}
use zsync_rs.Control.Generate.{Logarithms, generate, control_of, is_power_of_two}
use zsync_rs.Control.Records.{entry_size}
use zsync_rs.Control.Records.Trip.{kept}
use zsync_rs.Control.Hex.{hex_encode}
use zsync_rs.Control.Header.{ok, parse, max_header_bytes}
use zsync_rs.Control.Header.Parsed.{IsParsed, parse-IsParsed}
use zsync_rs.Control.Write.{fields, write_lines, write}
use zsync_rs.Control.Write.Trip.{parse-write}
use zsync_rs.Control.Write.Trip.Fields.{IsWritable}
use zsync_rs.Control.Write.Generated.{parse-write-generate}

abbrev two : ControlFile
two = record {
  version = codes "0.6.2";
  filename = some (codes "a b");
  mtime = none;
  blocksize = 4;
  file_length = 7;
  hash_lengths = record { seq_matches = 2; rsum_bytes = 2; checksum_bytes = 3 };
  urls = codes "x" ∷ codes "http://h/y" ∷ [];
  sha1 = some (replicate 40 b'0');
  block_checksums =
      record { rsum = record { a = 1; b = 0x1234 }; checksum = replicate 16 7 }
      ∷ record { rsum = record { a = 2; b = 0x5678 }; checksum = replicate 16 9 }
      ∷ [];
}

small-IsText : IsText (codes "x")
unfolding is_utf8 trim_start trim_end
small-IsText = record {
  whole = refl;
  one_line = omega arith;
  trimmed_start = refl;
  trimmed_end = refl;
}

two-IsWritable : IsWritable two
unfolding is_utf8 trim_start trim_end fields write_lines is_power_of_two print_uint
two-IsWritable = record {
  version_text = record {
    whole = refl;
    one_line = omega arith;
    trimmed_start = refl;
    trimmed_end = refl;
  };
  filename_text = record {
    whole = refl;
    one_line = omega arith;
    trimmed_start = refl;
    trimmed_end = refl;
  };
  mtime_text = tt;
  url_texts = (
    small-IsText,
    (record { whole = refl; one_line = omega arith; trimmed_start = refl; trimmed_end = refl }, tt),
  );
  sha1_text = (
    record { whole = refl; one_line = omega arith; trimmed_start = refl; trimmed_end = refl },
    refl,
  );
  power = refl;
  block_fits = omega arith;
  length_fits = omega arith;
  accepted = record {
    seq_range = (omega arith, omega arith);
    rsum_range = (omega arith, omega arith);
    checksum_range = (omega arith, omega arith);
  };
  blocks = ((omega arith, omega arith, refl), ((omega arith, omega arith, refl), tt));
  counted = refl;
  blocks_fit = omega arith;
  header_fits = omega arith;
}

parse-write_example :
    parse (write two ++ (1 ∷ []))
    ≡ ok (record two { block_checksums = map (kept two.hash_lengths) two.block_checksums })
parse-write_example = parse-write two (1 ∷ []) two-IsWritable

parse-IsParsed_example :
    let c = record two { block_checksums = map (kept two.hash_lengths) two.block_checksums } in
    IsParsed c
    × ((header records : Bytes) × (write two ++ (1 ∷ []) ≡ header ++ records)
        × (length header ≤ max_header_bytes)
        × (length c.block_checksums * entry_size c.hash_lengths ≤ length records))
parse-IsParsed_example = parse-IsParsed (write two ++ (1 ∷ [])) _ parse-write_example

abbrev digest : ℕ → Bytes → Bytes
digest n bytes = replicate n 7

abbrev logs : Logarithms
logs = record {
  rsum_estimate = λ n blocksize matches. 2;
  checksum_estimate = λ n blocksize matches. 3;
}

abbrev generated : ControlFile
generated = control_of (digest 16) (digest 20) logs (1 ∷ 2 ∷ 3 ∷ []) (codes "x") (codes "x") 2

parse-write-generate_example :
    parse (write generated)
    ≡ ok (record generated {
      block_checksums = map (kept generated.hash_lengths) generated.block_checksums;
    })
unfolding generate control_of is_power_of_two fields write_lines print_uint hex_encode
parse-write-generate_example =
    parse-write-generate (digest 16) (digest 20) logs (λ bytes. refl) (λ bytes. refl)
      (λ bytes. omega arith) (1 ∷ 2 ∷ 3 ∷ []) (codes "x") (codes "x") (some 2) generated refl
      small-IsText small-IsText (omega arith) (omega arith) (omega arith)
