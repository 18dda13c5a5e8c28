-- ===== src/Control/Header/Tests.antt =====
-- Small headers through `parse` of src/control.rs.
use zsync_rs.Prelude.{◌^◌, ◌≡◌, refl, arith, ◌++◌, codes, replicate}
use zsync_rs.Control.{Bytes, ControlFile, ParseError}
use zsync_rs.Control.Text.{is_utf8, trim_start, trim_end, read_line, split_once}
use zsync_rs.Control.Decimal.{parse_uint}
use zsync_rs.Control.Generate.{is_power_of_two}
use zsync_rs.Control.Header.{Result, err, no_header, apply_field, header_loop, parse_capped}
use zsync_rs.Control.Header.Loop.{header_loop_enough}

header_loop_enough_example :
    header_loop 7 5 (codes "a:b") no_header ≡ header_loop 6 5 (codes "a:b") no_header
header_loop_enough_example =
    header_loop_enough 7 6 5 (codes "a:b") no_header (omega arith) (omega arith)

-- Headers that are refused, under a cap of 40 bytes.
abbrev parse_small : Bytes → Result ControlFile
parse_small reader = parse_capped 40 reader

test_no_colon : parse_small (codes "zsync\n\n") ≡ err (ParseError.invalid_header (codes "zsync"))
unfolding parse_capped header_loop is_utf8 read_line trim_end split_once
test_no_colon = refl

test_no_blank_line : parse_small (codes "zsync: 1\n") ≡ err ParseError.unexpected_eof
unfolding parse_capped header_loop is_utf8 read_line trim_end split_once trim_start apply_field
test_no_blank_line = refl

test_endless_line :
    parse_small (codes "a:" ++ replicate 60 b'a') ≡ err (ParseError.header_too_large (2 ^ 20))
unfolding parse_capped header_loop is_utf8 read_line trim_end split_once trim_start apply_field
test_endless_line = refl

test_blocksize :
    parse_small (codes "Blocksize: 3\n\n") ≡ err (ParseError.invalid_blocksize (codes "3"))
unfolding parse_capped header_loop is_utf8 read_line trim_end split_once trim_start apply_field
    is_power_of_two parse_uint
test_blocksize = refl

test_missing :
    parse_small (codes "Blocksize: 4\n\n") ≡ err (ParseError.missing_field (codes "Length"))
unfolding parse_capped header_loop is_utf8 read_line trim_end split_once trim_start apply_field
    is_power_of_two parse_uint
test_missing = refl
