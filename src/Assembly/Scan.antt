-- ===== src/Assembly/Scan.antt =====
-- `submit_source_file` and `submit_self_referential` of src/assembly.rs: a file is scanned in chunks
-- that overlap by the context of a match. Both run the same loop; they differ in the file.
pub mod Rule
pub mod Counts
use zsync_rs.Prelude.{ℕ, zero, suc, ◌+◌, ◌-◌, ◌*◌, Bool, [], ◌∷◌, ◌++◌, min, max}
use zsync_rs.Prelude.{length, slice, replicate, ltb, ◌==◌, if◌then◌else◌, Option, none, some}
use zsync_rs.Control.{Bytes}
use zsync_rs.Matcher.Chain.{Matches}
use zsync_rs.Matcher.Submit.{submit_source_data}
use zsync_rs.Assembly.{ZsyncAssembly, write_block}

-- `STREAM_CHUNK_SIZE`, 32 MiB.
abbrev pub stream_chunk_size : ℕ
stream_chunk_size = 32 * 1024 * 1024

-- The file that is scanned: another one, or the temporary file as it is by now.
pub data ScanFile : Type 0 where
  other_file : Bytes → ScanFile
  temp_file : ScanFile

content_of : ScanFile → ZsyncAssembly → Bytes
content_of (other_file content) s = content
content_of temp_file s = elim s.file [ none ↦ [] | some content ↦ content ]

-- The context of the assembly, from its control file.
abbrev pub scan_context : ZsyncAssembly → ℕ
scan_context s = s.control.blocksize * s.control.hash_lengths.seq_matches

-- The buffer of one round: the overlap, the chunk, and the context behind it, which is filled up
-- with zeros at the end of the file.
chunk_buffer : Bytes → ℕ → ℕ → ℕ → ℕ → Bytes
chunk_buffer content file_size ctx file_offset chunk_size =
    let overlap = slice content (file_offset - ctx) file_offset in
    let chunk = slice content file_offset (file_offset + chunk_size) in
    let context_start = file_offset + length chunk in
    let available = min (file_size - context_start) ctx in
    let behind =
      if ltb context_start file_size
      then slice content context_start (context_start + available) ++ replicate (ctx - available) 0
      else replicate ctx 0 in
    overlap ++ (chunk ++ behind)

module _ (md4 : Bytes → Bytes) (num_threads : ℕ) (on_disk : Bytes) where
  -- The blocks found in a buffer that starts at `overlap_start` are copied to their places.
  unfoldable pub copy_blocks : Bytes → ℕ → Matches → ZsyncAssembly → ZsyncAssembly
  copy_blocks buf overlap_start [] s = s
  copy_blocks buf overlap_start ((block_id, source_offset) ∷ rest) s =
      let size = s.control.blocksize in
      let buf_offset = source_offset - overlap_start in
      let block = slice buf buf_offset (buf_offset + size) in
      copy_blocks buf overlap_start rest (write_block on_disk (block_id * size) block s)

  -- The matcher's part of a round, then the copies.
  unfoldable pub scan_buffer : Bytes → ℕ → ZsyncAssembly → ZsyncAssembly × ℕ
  unfolding copy_blocks
  scan_buffer buf overlap_start s =
      let (matcher, found) = submit_source_data md4 num_threads buf overlap_start s.matcher in
      (copy_blocks buf overlap_start found (record s { matcher = matcher }), length found)

  -- The loop. `polls` is what the abort flag reads in each round.
  scan_file_loop :
      ℕ → (ℕ → Bool) → ScanFile → ℕ → ℕ → ℕ → ℕ → ZsyncAssembly → ZsyncAssembly × Option ℕ
  unfolding content_of chunk_buffer scan_buffer
  scan_file_loop zero polls source file_size chunk_size file_offset total s = (s, some total)
  scan_file_loop (suc rounds) polls source file_size chunk_size file_offset total s =
      let ctx = scan_context s in
      let content = content_of source s in
      let bytes_read = length (slice content file_offset (file_offset + chunk_size)) in
      let buf = chunk_buffer content file_size ctx file_offset chunk_size in
      let scanned = scan_buffer buf (file_offset - ctx) s in
      let more =
        scan_file_loop rounds polls source file_size chunk_size (file_offset + bytes_read)
          (total + scanned.1) scanned.0 in
      if polls rounds
      then (s, none)
      else if bytes_read == 0
      then (s, some total)
      else if ltb bytes_read chunk_size
      then (scanned.0, some (total + scanned.1))
      else more

  -- The scan of a whole file: `none` stands for `AssemblyError::Aborted`. Each round but the last
  -- reads a full chunk, so one round for each byte, and one more, are enough.
  scan_file : (ℕ → Bool) → ScanFile → ZsyncAssembly → ZsyncAssembly × Option ℕ
  unfolding scan_file_loop
  scan_file polls source s =
      let file_size = length (content_of source s) in
      let chunk_size = max stream_chunk_size (scan_context s * 2) in
      if ltb file_size (scan_context s)
      then (s, some 0)
      else scan_file_loop (suc file_size) polls source file_size chunk_size 0 0 s

  unfoldable pub submit_source_file : (ℕ → Bool) → Bytes → ZsyncAssembly → ZsyncAssembly × Option ℕ
  unfolding scan_file
  submit_source_file polls content s = scan_file polls (other_file content) s

  unfoldable pub submit_self_referential : (ℕ → Bool) → ZsyncAssembly → ZsyncAssembly × Option ℕ
  unfolding scan_file
  submit_self_referential polls s = elim s.file [
    | none ↦ (s, some 0)
    | some content ↦ scan_file polls temp_file s
  ]
