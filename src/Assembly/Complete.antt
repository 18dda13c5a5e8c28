-- ===== src/Assembly/Complete.antt =====
-- `complete` of src/assembly.rs. The digest is that of src/checksum.rs.
pub mod Valid
pub mod Hex
use zsync_rs.Prelude.{bytes_eq}
use zsync_rs.Prelude.{ℕ, ◌+◌, ◌-◌, ◌/◌, ◌%◌, Bool, true, false, List, [], ◌∷◌, ◌++◌, map}
use zsync_rs.Prelude.{length, take, replicate, ltb, leb, if◌then◌else◌, ◌&&◌, Option, none, some}
use zsync_rs.Control.{Bytes, ControlFile}
use zsync_rs.Control.Hex.{hex_encode}
use zsync_rs.Matcher.{BlockMatcher, is_complete}
use zsync_rs.Assembly.{ZsyncAssembly, AssemblyError, opened, block_stats}

unfoldable pub to_ascii_lowercase : ℕ → ℕ
to_ascii_lowercase c = if leb b'A' c && leb c b'Z' then c + 32 else c

unfoldable pub eq_ignore_ascii_case : Bytes → Bytes → Bool
eq_ignore_ascii_case a b = bytes_eq (map to_ascii_lowercase a) (map to_ascii_lowercase b)

-- `File::set_len`
unfoldable pub set_len : ℕ → Bytes → Bytes
set_len n content = take n content ++ replicate (n - length content) 0

-- What stands at the output path afterwards, or the error; the temporary file is gone in both cases.
pub data Completion : Type 0 where
  ok : Bytes → Completion
  err : AssemblyError → Completion

-- The comparison with the digest of the control file, when it has one.
unfoldable pub check_digest : Option Bytes → Bytes → Bytes → Completion
check_digest none actual content = Completion.ok content
check_digest (some expected) actual content =
    if eq_ignore_ascii_case actual expected
    then Completion.ok content
    else Completion.err (AssemblyError.checksum_mismatch expected actual)

unfoldable pub complete : (Bytes → Bytes) → Bytes → ZsyncAssembly → Completion
unfolding check_digest
complete sha1 on_disk s =
    let (known, total) = block_stats s in
    let content = set_len s.control.file_length (opened on_disk s.file) in
    if is_complete s.matcher
    then check_digest s.control.sha1 (hex_encode (sha1 content)) content
    else Completion.err (AssemblyError.missing_blocks (total - known) total)
