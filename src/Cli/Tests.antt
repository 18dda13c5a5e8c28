-- ===== src/Cli/Tests.antt =====
-- The unit tests of src/bin/zsync.rs, and small runs of its parts.
use zsync_rs.Prelude.{
  ℕ, ◌+◌, ◌*◌, ◌≤◌, ◌<◌, ◌≡◌, ◌≢◌, refl, arith, Bool, true, false, List, [], ◌∷◌, ◌++◌, take, drop,
  length, All, codes, replicate, Option, none, some, if◌then◌else◌,
}
use zsync_rs.Control.{Bytes, ControlFile}
use zsync_rs.Control.Text.{split}
use zsync_rs.Control.Decimal.{print_uint}
use zsync_rs.Control.Hex.{hex_digit}
use zsync_rs.Matcher.{total_blocks, blocks_todo, is_complete}
use zsync_rs.Matcher.New.{new}
use zsync_rs.Matcher.New.Valid.{new-IsValid}
use zsync_rs.Http.{RequestError}
use zsync_rs.Http.Client.{Answer}
use zsync_rs.Assembly.{ZsyncAssembly, with_client}
use zsync_rs.Cli.Main.{main}
use zsync_rs.Cli.Main.Finished.{IsGoodExit, main_finished}
use zsync_rs.Cli.Retry.{Outcome, download, delay_of}
use zsync_rs.Cli.Retry.Ends.{download_ends}
use zsync_rs.Cli.Json.{Text, json_escape}
use zsync_rs.Cli.Json.Read.{unescape, unescape-json_escape}
use zsync_rs.Cli.Output.{default_output}
use zsync_rs.Cli.Output.Segment.{IsSegmentChar, default_output-IsSegmentChar}
use zsync_rs.Cli.Bar.{bar_width, whole_percent, clamped, cells, render_bar}
use zsync_rs.Cli.Bar.Range.{whole_percent-cells}
use zsync_rs.Cli.Reporter.{Mode, Reporter, new_reporter, progress}
use zsync_rs.Cli.Reporter.Spaced.{IsSpaced, shown, progress-IsSpaced}
use zsync_rs.Cli.Reporter.Once.{Call, run, finals, has_ending, is_closed, finish_once}

test_escape_quote : json_escape (codes "a\"b\n") ≡ codes "a\\\"b\\n"
unfolding json_escape
test_escape_quote = refl

test_escape_control : json_escape (1 ∷ []) ≡ codes "\\u0001"
unfolding json_escape hex_digit
test_escape_control = refl

unescape-json_escape_example : unescape (json_escape (codes "C:\\f\t")) ≡ some (codes "C:\\f\t")
unescape-json_escape_example = unescape-json_escape (codes "C:\\f\t")

test_output_suffix : default_output (codes "https://h/a/app.zsync?sig=x/y&e=1") ≡ codes "app"
unfolding default_output split
test_output_suffix = refl

test_output_empty : default_output (codes "https://h/a/") ≡ codes "output"
unfolding default_output split
test_output_empty = refl

default_output-IsSegmentChar_example :
    All IsSegmentChar (default_output (codes "http://h/f.zsync#x"))
    × (1 ≤ length (default_output (codes "http://h/f.zsync#x")))
default_output-IsSegmentChar_example = default_output-IsSegmentChar (codes "http://h/f.zsync#x")

-- No test prints a size of a kibibyte.
abbrev no_float : ℕ → ℕ → Text
no_float n unit = []

test_bar :
    render_bar no_float 500 1000
    ≡ codes "  [" ++ (replicate 15 b'#' ++ (replicate 15 b' ' ++ codes "]  50%  500 B / 1000 B"))
unfolding render_bar print_uint
test_bar = refl

whole_percent-cells_example :
    let percent = whole_percent 500 1000 in
    (percent * 1000 ≤ 50000)
    × (50000 < (percent + 1) * 1000)
    × (clamped percent ≡ percent)
    × (length (cells 500 1000) ≡ bar_width)
whole_percent-cells_example = whole_percent-cells 500 1000 (omega arith) (omega arith) (omega arith)

abbrev reporter : Reporter
reporter = new_reporter Mode.json 1000

abbrev calls : List (ℕ × ℕ × ℕ)
calls = (1000, 1, 9) ∷ (1050, 2, 9) ∷ (1100, 3, 9) ∷ []

test_shown : shown no_float reporter calls ≡ 1000 ∷ 1100 ∷ []
unfolding new_reporter progress shown
test_shown = refl

progress-IsSpaced_example : IsSpaced none (shown no_float reporter calls)
unfolding new_reporter
progress-IsSpaced_example = progress-IsSpaced no_float reporter calls

abbrev phase_calls : List Call
phase_calls =
    Call.report 1000 1 9 ∷ Call.report 1050 2 9 ∷ Call.ending 1060 9 9 ∷ Call.report 2000 9 9 ∷ []

finish_once_example :
    (finals (run no_float reporter phase_calls) ≡ (if has_ending phase_calls then 1 else 0))
    × (is_closed (run no_float reporter phase_calls) ≡ true)
unfolding new_reporter
finish_once_example = finish_once no_float phase_calls reporter refl refl

test_delays : (delay_of 1 ≡ 2) × (delay_of 5 ≡ 32) × (delay_of 6 ≡ 60) × (delay_of 70 ≡ 60)
unfolding delay_of
test_delays = (refl, refl, refl, refl)

-- A target of one block, which no server can be reached for.
abbrev one_block : ControlFile
one_block = record {
  version = [];
  filename = none;
  mtime = none;
  blocksize = 4;
  file_length = 4;
  hash_lengths = record { seq_matches = 1; rsum_bytes = 4; checksum_bytes = 16 };
  urls = (b'u' ∷ []) ∷ [];
  sha1 = none;
  block_checksums = record { rsum = record { a = 10; b = 20 }; checksum = 1 ∷ 2 ∷ 3 ∷ 4 ∷ [] } ∷ [];
}

abbrev wanted : ZsyncAssembly
wanted = with_client one_block [] none (record { redirect = none })

abbrev plain : Bytes → Bytes
plain block = block

abbrev refuse : ℕ → Bytes → ℕ → ℕ → ℕ × Answer Bytes
refuse requests url start end = (requests + 1, Answer.failed RequestError.connection_failed)

abbrev read_bytes : Bytes → ℕ → Bytes × Option Bytes
read_bytes body len = (drop len body, some (take len body))

abbrev poll : ℕ → ℕ × Bool
poll requests = (requests, false)

download_ends_example :
    let (w', s', delays, outcome) = download plain [] refuse read_bytes poll 3 9 0 wanted in
    (outcome ≢ Outcome.out_of_rounds) × (outcome ≡ Outcome.ready → is_complete s'.matcher ≡ true)
unfolding with_client new blocks_todo
download_ends_example =
    download_ends plain [] refuse read_bytes poll 3 9 0 wanted (new-IsValid one_block (omega arith))
      refl (omega arith) (omega arith)

main_finished_example :
    let (w', s', exit) =
      main plain plain 1 [] refuse read_bytes 3 9
        (none ∷ some (9 ∷ 1 ∷ 2 ∷ 3 ∷ 4 ∷ []) ∷ [])
        0
        wanted in
    IsGoodExit plain [] s' exit
unfolding with_client new total_blocks
main_finished_example =
    main_finished plain plain 1 [] refuse read_bytes 3 9 (none ∷ some (9 ∷ 1 ∷ 2 ∷ 3 ∷ 4 ∷ []) ∷ [])
      0 wanted (new-IsValid one_block (omega arith)) refl (omega arith) (omega arith)
