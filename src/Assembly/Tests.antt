-- ===== src/Assembly/Tests.antt =====
-- The URLs of the unit tests of src/assembly.rs, and a transfer that completes.
use zsync_rs.Prelude.{◌≡◌, ◌↔◌, refl, [], ◌∷◌, none, some}
use zsync_rs.Prelude.{ℕ, ◌+◌, Bool, false, Option, take, drop, arith}
use zsync_rs.Matcher.New.Valid.{new-IsValid}
use zsync_rs.Http.Client.{Answer}
use zsync_rs.Assembly.Download.{download_missing_blocks}
use zsync_rs.Assembly.Download.Keeps.{Keeps, download_missing_blocks-Keeps}
use zsync_rs.Assembly.Download.Counts.{download_missing_blocks-IsCounted}
use zsync_rs.Assembly.Download.Counts.Buffer.{IsCounted}
use zsync_rs.Assembly.{write_at, write_block}
use zsync_rs.Assembly.Download.{block_data_end}
use zsync_rs.Matcher.{total_blocks, is_block_known}
use zsync_rs.Matcher.Chain.{same_checksum}
use zsync_rs.Matcher.Submit.{submit_blocks}
use zsync_rs.Matcher.Ranges.{needed_block_ranges}
use zsync_rs.Http.Ranges.{merge_byte_ranges, byte_ranges_from_block_ranges}
use zsync_rs.Http.Client.{fetch_range_reader, open_range, range_read}
use zsync_rs.Control.{Bytes, ControlFile}
use zsync_rs.Control.Hex.{hex_encode}
use zsync_rs.Matcher.{is_complete}
use zsync_rs.Matcher.New.{new}
use zsync_rs.Assembly.{ZsyncAssembly, with_client}
use zsync_rs.Assembly.Urls.{
  path_of, through_last_slash, extract_base_url, find_scheme, find_slash, starts_with_slash,
  resolve_url,
}
use zsync_rs.Assembly.Complete.{
  Completion, to_ascii_lowercase, eq_ignore_ascii_case, set_len, complete,
}
use zsync_rs.Assembly.Complete.Valid.{IsFinished, complete-IsFinished}

-- "/d/f?a/b"
abbrev url : Bytes
url = b'/' ∷ b'd' ∷ b'/' ∷ b'f' ∷ b'?' ∷ b'a' ∷ b'/' ∷ b'b' ∷ []

base_without_query : extract_base_url url ≡ b'/' ∷ b'd' ∷ b'/' ∷ []
unfolding extract_base_url through_last_slash path_of
base_without_query = refl

-- "s://h/p/" and "/q"
resolved :
    resolve_url (b's' ∷ b':' ∷ b'/' ∷ b'/' ∷ b'h' ∷ b'/' ∷ b'p' ∷ b'/' ∷ []) (b'/' ∷ b'q' ∷ [])
    ≡ b's' ∷ b':' ∷ b'/' ∷ b'/' ∷ b'h' ∷ b'/' ∷ b'q' ∷ []
unfolding resolve_url find_scheme starts_with_slash find_slash
resolved = refl

-- A target of five bytes that has no block to find, with a digest of one byte.
abbrev control : ControlFile
control = record {
  version = [];
  filename = none;
  mtime = none;
  blocksize = 4;
  file_length = 5;
  hash_lengths = record { seq_matches = 1; rsum_bytes = 4; checksum_bytes = 16 };
  urls = [];
  sha1 = some (b'A' ∷ b'1' ∷ []);
  block_checksums = [];
}

abbrev transfer : ZsyncAssembly
transfer = with_client control [] none (record { redirect = none })

digest : Bytes → Bytes
digest content = 0xa1 ∷ []

completes :
    complete digest (1 ∷ 2 ∷ 3 ∷ 4 ∷ 5 ∷ 6 ∷ []) transfer ≡ Completion.ok (1 ∷ 2 ∷ 3 ∷ 4 ∷ 5 ∷ [])
unfolding complete with_client digest is_complete new eq_ignore_ascii_case hex_encode
    to_ascii_lowercase set_len
completes = refl

complete-IsFinished_example :
    (complete digest (1 ∷ 2 ∷ 3 ∷ 4 ∷ 5 ∷ 6 ∷ []) transfer ≡ Completion.ok (1 ∷ 2 ∷ 3 ∷ 4 ∷ 5 ∷ []))
    ↔ IsFinished digest (1 ∷ 2 ∷ 3 ∷ 4 ∷ 5 ∷ 6 ∷ []) transfer (1 ∷ 2 ∷ 3 ∷ 4 ∷ 5 ∷ [])
complete-IsFinished_example =
    complete-IsFinished digest (1 ∷ 2 ∷ 3 ∷ 4 ∷ 5 ∷ 6 ∷ []) transfer (1 ∷ 2 ∷ 3 ∷ 4 ∷ 5 ∷ [])

-- A target of one block, which a server serves.
abbrev one_block : ControlFile
one_block = record {
  version = [];
  filename = none;
  mtime = none;
  blocksize = 4;
  file_length = 4;
  hash_lengths = record { seq_matches = 1; rsum_bytes = 4; checksum_bytes = 16 };
  urls = (b'u' ∷ []) ∷ [];
  sha1 = none;
  block_checksums = record { rsum = record { a = 10; b = 20 }; checksum = 1 ∷ 2 ∷ 3 ∷ 4 ∷ [] } ∷ [];
}

abbrev wanted : ZsyncAssembly
wanted = with_client one_block [] none (record { redirect = none })

abbrev plain : Bytes → Bytes
plain block = block

abbrev serve : ℕ → Bytes → ℕ → ℕ → ℕ × Answer Bytes
serve requests url start end = (requests + 1, Answer.response url 206 (1 ∷ 2 ∷ 3 ∷ 4 ∷ []))

abbrev read_bytes : Bytes → ℕ → Bytes × Option Bytes
read_bytes body len = (drop len body, some (take len body))

abbrev poll : ℕ → ℕ × Bool
poll requests = (requests, false)

downloads :
    (download_missing_blocks plain [] serve read_bytes poll 0 wanted).1.file
    ≡ some (1 ∷ 2 ∷ 3 ∷ 4 ∷ [])
unfolding with_client download_missing_blocks merge_byte_ranges byte_ranges_from_block_ranges
    needed_block_ranges new fetch_range_reader open_range range_read total_blocks is_block_known
    submit_blocks block_data_end same_checksum write_block write_at
downloads = refl

download_missing_blocks-Keeps_example :
    Keeps wanted.matcher (download_missing_blocks plain [] serve read_bytes poll 0 wanted).1
unfolding with_client
download_missing_blocks-Keeps_example =
    download_missing_blocks-Keeps plain [] serve read_bytes poll 0 wanted
      (new-IsValid one_block (omega arith))

download_missing_blocks-IsCounted_example :
    let (w', s', n, error) = download_missing_blocks plain [] serve read_bytes poll 0 wanted in
    IsCounted (total_blocks wanted.matcher) wanted.matcher.known_count s' n
unfolding with_client new
download_missing_blocks-IsCounted_example =
    download_missing_blocks-IsCounted plain [] serve read_bytes poll 0 wanted
      (new-IsValid one_block (omega arith), refl, omega arith, refl, refl)
