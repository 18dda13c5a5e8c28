-- ===== src/Make/Tests.antt =====
-- A control file that is made for three bytes, and a run that fetches them.
use zsync_rs.Prelude.{
  ℕ, ◌+◌, ◌-◌, ◌^◌, ◌≡◌, refl, arith, true, [], ◌∷◌, take, drop, length, map, replicate, codes,
  Option, none, some,
}
use zsync_rs.Control.{Bytes, ControlFile}
use zsync_rs.Control.Generate.{
  Logarithms, Generated, generate, control_of, padded_block, is_power_of_two,
}
use zsync_rs.Control.Write.{write, write_lines, fields}
use zsync_rs.Assembly.{with_client, block_stats, write_block}
use zsync_rs.Matcher.{mark_known, is_block_known, blocks_todo, is_complete, total_blocks}
use zsync_rs.Matcher.Chain.{same_checksum}
use zsync_rs.Matcher.New.{new}
use zsync_rs.Matcher.Submit.{submit_blocks}
use zsync_rs.Matcher.Ranges.{needed_block_ranges}
use zsync_rs.Control.Decimal.{parse_uint, print_uint}
use zsync_rs.Control.Text.{is_utf8, read_line, trim_end, trim_start, split_once, split}
use zsync_rs.Rsum.{calc_rsum_block}
use zsync_rs.Control.Records.{decode_rsum, rsum_to_bytes, read_block_checksums, write_blocks}
use zsync_rs.Control.Hex.{hex_encode}
use zsync_rs.Control.Header.{is_accepted, apply_field, parse}
use zsync_rs.Http.Fetch.{new_client, fetch_control_file}
use zsync_rs.Http.Client.{range_read, open_range, fetch_range_reader}
use zsync_rs.Http.Ranges.{merge_byte_ranges, byte_ranges_from_block_ranges}
use zsync_rs.Assembly.Complete.{to_ascii_lowercase, eq_ignore_ascii_case, complete}
use zsync_rs.Assembly.Download.{block_data_end, download_missing_blocks}
use zsync_rs.Assembly.Start.{from_url, set_range_gap_threshold}
use zsync_rs.Cli.Retry.{download}
use zsync_rs.Http.Client.{Answer}
use zsync_rs.Http.Fetch.{Reply}
use zsync_rs.Cli.Run
use zsync_rs.Control.Header
use zsync_rs.Control.Records.Trip.{kept, kept_rsum}
use zsync_rs.Assembly.Start
use zsync_rs.Assembly.Start.{from_url_with_client}
use zsync_rs.Assembly.Start.Ready.{IsFresh, from_url_with_client-IsFresh}
use zsync_rs.Assembly.Urls.{extract_base_url}
use zsync_rs.Cli.Run.{run}
use zsync_rs.Cli.Run.Verified.{IsGoodEnding, run-IsGoodEnding}
use zsync_rs.Cli.Run.Disk.{Disk, IsClean, run_on_disk, run_on_disk-IsClean}
use zsync_rs.Cli.Main.{Exit}
use zsync_rs.Assembly.{ZsyncAssembly}
use zsync_rs.Assembly.Complete.{Completion}
use zsync_rs.Control.Text.Lines.{IsText}
use zsync_rs.Make.Fetched.{IsReadable, run-main}
use zsync_rs.Make.{System, Cli, Ending, exit_code, filename_of, url_of, main}

abbrev digest : ℕ → Bytes → Bytes
digest n bytes = replicate n 7

abbrev logs : Logarithms
logs = record {
  rsum_estimate = λ n blocksize matches. 2;
  checksum_estimate = λ n blocksize matches. 3;
}

abbrev input : Bytes
input = 1 ∷ 2 ∷ 3 ∷ []

abbrev sys : System
sys = record {
  file_name = λ path. some path;
  open_input = λ path. some input;
  created = λ path. true;
  writes = λ path bytes. true;
}

abbrev make : Cli
make = record { file = codes "x"; url = none; output = none; blocksize = some 2 }

abbrev made : ControlFile
made = control_of (digest 16) (digest 20) logs input (codes "x") (codes "x") 2

abbrev get : ℕ → Bytes → ℕ × Reply
get requests url = (requests + 1, Reply.body (write made))

abbrev serve : ℕ → Bytes → ℕ → ℕ → ℕ × Answer Bytes
serve requests url start end =
    (requests + 1, Answer.response url 206 (take (end - start + 1) (drop start input)))

abbrev read_bytes : Bytes → ℕ → Bytes × Option Bytes
read_bytes body len = (drop len body, some (take len body))

abbrev fetch : Run.Cli
fetch = record { url = codes "h/x.zsync"; output = none; input = []; range_gap = 16; retries = 3 }

-- The run delivers the three bytes.
fetched :
    Run.exit_code (run (digest 16) (digest 20) 1 [] get serve read_bytes (2 ^ 30) fetch 0).1 ≡ 0
unfolding write generate run Run.exit_code zsync_rs.Cli.Main.main with_client block_stats
    write_block mark_known is_block_known blocks_todo is_complete total_blocks same_checksum new
    submit_blocks needed_block_ranges parse_uint print_uint is_utf8 read_line trim_end trim_start
    split_once split rsum_to_bytes read_block_checksums write_blocks hex_encode is_accepted
    apply_field parse fetch_control_file range_read open_range fetch_range_reader merge_byte_ranges
    byte_ranges_from_block_ranges to_ascii_lowercase eq_ignore_ascii_case complete block_data_end
    download_missing_blocks from_url set_range_gap_threshold download
fetched = refl

small-IsText : IsText (codes "x")
unfolding is_utf8 trim_start trim_end
small-IsText = record {
  whole = refl;
  one_line = omega arith;
  trimmed_start = refl;
  trimmed_end = refl;
}

made-IsReadable : IsReadable input (codes "x") (codes "x") made
unfolding control_of fields write_lines print_uint hex_encode
made-IsReadable = record {
  name_text = small-IsText;
  url_text = small-IsText;
  input_fits = omega arith;
  blocks_fit = omega arith;
  header_fits = omega arith;
}

generates :
    generate (digest 16) (digest 20) logs input (filename_of sys make) (url_of sys make) (some 2)
    ≡ Generated.ok made
unfolding generate control_of is_power_of_two filename_of url_of
generates = refl

makes : main sys (digest 16) (digest 20) logs make ≡ Ending.wrote (codes "x.zsync") (write made)
unfolding main generate control_of is_power_of_two write
makes = refl

run-main_example :
    (s : ZsyncAssembly) × (out : Bytes) × ((run
        (digest 16)
        (digest 20)
        1
        []
        get
        serve
        read_bytes
        (2 ^ 30)
        fetch
        0).1
      ≡ Run.Ending.ran s (Exit.completed (Completion.ok out)))
    × (length out ≡ length input)
    × (digest 20 out ≡ digest 20 input)
unfolding filename_of url_of
run-main_example =
    run-main (digest 16) (digest 20) logs (λ bytes. refl) (λ bytes. refl) (λ bytes. omega arith) sys
      make input made (codes "x.zsync") (write made) refl generates made-IsReadable makes 1 get
      serve read_bytes (2 ^ 30) fetch 0 (omega arith) refl fetched

run-IsGoodEnding_example :
    IsGoodEnding
      (digest 16)
      (digest 20)
      (Reply.body (write made))
      (run (digest 16) (digest 20) 1 [] get serve read_bytes (2 ^ 30) fetch 0).1
run-IsGoodEnding_example =
    run-IsGoodEnding (digest 16) (digest 20) 1 get serve read_bytes (2 ^ 30) fetch 0 (omega arith)

abbrev disk : Disk
disk = record { temp = none; output = some (9 ∷ []) }

run_on_disk-IsClean_example :
    let (w', disk', code) =
      run_on_disk (digest 16) (digest 20) 1 get serve read_bytes (2 ^ 30) fetch 0 disk in
    IsClean (digest 16) (digest 20) (Reply.body (write made)) disk disk' code
run_on_disk-IsClean_example =
    run_on_disk-IsClean (digest 16) (digest 20) 1 get serve read_bytes (2 ^ 30) fetch 0 disk
      (omega arith) refl

-- The control file as it is read back.
abbrev read_back : ControlFile
read_back = record made { block_checksums = map (kept made.hash_lengths) made.block_checksums }

begins :
    (from_url_with_client get (codes "h/x.zsync") (codes "x") new_client 0).1
    ≡ Start.Result.ok
        (with_client read_back (codes "x") (some (extract_base_url (codes "h/x.zsync"))) new_client)
unfolding from_url_with_client fetch_control_file parse write generate control_of kept kept_rsum
    read_block_checksums rsum_to_bytes write_blocks parse_uint print_uint is_utf8 read_line trim_end
    trim_start split_once split is_accepted apply_field hex_encode is_power_of_two decode_rsum
    calc_rsum_block padded_block
begins = refl

from_url_with_client-IsFresh_example :
    let s =
      with_client read_back (codes "x") (some (extract_base_url (codes "h/x.zsync"))) new_client in
    (bytes : Bytes) × (control : ControlFile) × ((get 0 (codes "h/x.zsync")).1 ≡ Reply.body bytes)
    × (parse bytes ≡ Header.Result.ok control)
    × (s ≡ with_client control (codes "x") (some (extract_base_url (codes "h/x.zsync"))) new_client)
    × IsFresh control s
from_url_with_client-IsFresh_example =
    from_url_with_client-IsFresh get (codes "h/x.zsync") (codes "x") new_client 0
      (with_client read_back (codes "x") (some (extract_base_url (codes "h/x.zsync"))) new_client)
      begins
