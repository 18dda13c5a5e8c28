-- ===== src/Assembly.antt =====
-- src/assembly.rs: one transfer of a target, from a control file to the finished output. The
-- temporary file is the list of its bytes. Operations on local files are taken to succeed, and a
-- read of a local file to fill its buffer up to the end of the file.
mod Tests
pub mod Scan
pub mod Download
pub mod Complete
pub mod Urls
pub mod Write
pub mod Store
pub mod Start
use zsync_rs.Prelude.{ℕ, ◌+◌, ◌-◌, ◌*◌, Bool, false, List, [], ◌∷◌, ◌++◌, min, max}
use zsync_rs.Prelude.{length, take, drop, replicate, Option, none, some}
use zsync_rs.Control.{Bytes, ControlFile}
use zsync_rs.Matcher.{BlockMatcher, blocks_todo, total_blocks}
use zsync_rs.Matcher.New.{new}
use zsync_rs.Http
use zsync_rs.Http.{HttpError}
use zsync_rs.Http.Client.{HttpClient}
use zsync_rs.Http.Ranges.{default_range_gap_threshold}

pub data AssemblyError : Type 0 where
  http : HttpError → AssemblyError
  missing_blocks : ℕ → ℕ → AssemblyError
  checksum_mismatch : Bytes → Bytes → AssemblyError
  no_urls aborted : AssemblyError

unfoldable pub is_transient : AssemblyError → Bool
is_transient (AssemblyError.http e) = Http.is_transient e
is_transient _ = false

-- The callbacks and the abort flag are left out: the first only report, the second is a parameter of
-- the loops. `file` is the content of the temporary file, once it is open.
pub record ZsyncAssembly : Type 0 where
  pub control : ControlFile
  pub base_url : Option Bytes
  pub matcher : BlockMatcher
  pub http : HttpClient
  pub output_path : Bytes
  pub temp_path : Bytes
  pub file : Option Bytes
  pub range_gap_threshold : ℕ

-- ".zsync-tmp"
abbrev pub temp_suffix : Bytes
temp_suffix = b'.' ∷ b'z' ∷ b's' ∷ b'y' ∷ b'n' ∷ b'c' ∷ b'-' ∷ b't' ∷ b'm' ∷ b'p' ∷ []

unfoldable pub with_client : ControlFile → Bytes → Option Bytes → HttpClient → ZsyncAssembly
with_client control output_path base_url client = record {
  control = control;
  base_url = base_url;
  matcher = new control;
  http = client;
  output_path = output_path;
  temp_path = output_path ++ temp_suffix;
  file = none;
  range_gap_threshold = default_range_gap_threshold;
}

unfoldable pub progress : ZsyncAssembly → ℕ × ℕ
progress s =
    let total = s.control.file_length in
    let blocks_done = total_blocks s.matcher - blocks_todo s.matcher in
    (min (blocks_done * s.control.blocksize) total, total)

unfoldable pub block_stats : ZsyncAssembly → ℕ × ℕ
block_stats s = let total = total_blocks s.matcher in (total - blocks_todo s.matcher, total)

-- A write at an offset; a gap before it reads as zeros.
unfoldable pub write_at : Bytes → ℕ → Bytes → Bytes
write_at content offset bytes =
    take offset content
    ++ (replicate (offset - length content) 0 ++ (bytes ++ drop (offset + length bytes) content))

-- The content that `ensure_file` leaves: that of the open file, or what stood at the temporary path.
abbrev pub opened : Bytes → Option Bytes → Bytes
opened on_disk none = on_disk
opened on_disk (some content) = content

-- `ensure_file` and `write_at_offset`.
unfoldable pub write_block : Bytes → ℕ → Bytes → ZsyncAssembly → ZsyncAssembly
write_block on_disk offset bytes s = record s {
  file = some (write_at (opened on_disk s.file) offset bytes);
}
