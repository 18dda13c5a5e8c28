-- ===== src/Assembly/Scan/Rule.antt =====
-- The loop of `submit_source_file` and `submit_self_referential` in src/assembly.rs: what the scan of
-- one buffer keeps, the scan of a file keeps.
use zsync_rs.Prelude.{
  ℕ, zero, suc, ◌+◌, ◌-◌, ◌*◌, ◌≡◌, refl, inl, inr, Bool, max, length, slice, ltb, ◌==◌, Bool-cases,
  Option, OptionHolds, Option-cases,
}
use zsync_rs.Control.{Bytes}
use zsync_rs.Assembly.{ZsyncAssembly}
use zsync_rs.Assembly.Scan.{
  ScanFile, stream_chunk_size, content_of, scan_context, chunk_buffer, scan_buffer, scan_file_loop,
  scan_file, submit_source_file, submit_self_referential,
}

-- What is returned, if the scan is not aborted, is the number of blocks found.
abbrev pub IsScanned : (ZsyncAssembly → ℕ → Type 0) → ZsyncAssembly → Option ℕ → Type 0
IsScanned P s answer = (n : ℕ) × P s n × OptionHolds (λ found. found ≡ n) answer

module _ (md4 : Bytes → Bytes) (num_threads : ℕ) (on_disk : Bytes) {P : ZsyncAssembly → ℕ → Type 0}
    (kept : (buf : Bytes) (overlap_start n : ℕ) (s : ZsyncAssembly)
      → P s n
      → let (s', found) = scan_buffer md4 num_threads on_disk buf overlap_start s in
        P s' (n + found)) where
  scan_file_loop_rule :
      (rounds : ℕ) (polls : ℕ → Bool) (source : ScanFile) (file_size chunk_size file_offset n : ℕ)
      (s : ZsyncAssembly)
      → P s n
      → let (s', answer) =
          scan_file_loop md4 num_threads on_disk rounds polls source file_size chunk_size
            file_offset n s in
        IsScanned P s' answer
  unfolding scan_file_loop
  scan_file_loop_rule zero polls source file_size chunk_size file_offset n s k = (n, k, refl)
  scan_file_loop_rule (suc rounds) polls source file_size chunk_size file_offset n s k =
      elim (Bool-cases (polls rounds)) [
        | inl abort ↦ rw abort (n, k, tt)
        | inr on ↦ elim (Bool-cases (bytes_read == 0)) [
          | inl empty ↦ rw (on, empty) (n, k, refl)
          | inr some_bytes ↦ elim (Bool-cases (ltb bytes_read chunk_size)) [
            | inl last ↦ rw (on, some_bytes, last) (_, after, refl)
            | inr full ↦
                rw (on, some_bytes, full)
                  (scan_file_loop_rule rounds polls source file_size chunk_size
                    (file_offset + bytes_read) _ _ after)
          ]
        ]
      ]
    where
      bytes_read : ℕ
      bytes_read = length (slice (content_of source s) file_offset (file_offset + chunk_size))

      buf : Bytes
      buf = chunk_buffer (content_of source s) file_size (scan_context s) file_offset chunk_size

      scanned : ZsyncAssembly × ℕ
      scanned = scan_buffer md4 num_threads on_disk buf (file_offset - scan_context s) s

      after : P scanned.0 (n + scanned.1)
      after = kept buf (file_offset - scan_context s) n s k

  scan_file_rule :
      (polls : ℕ → Bool) (source : ScanFile) (s : ZsyncAssembly)
      → P s 0
      → let (s', answer) = scan_file md4 num_threads on_disk polls source s in IsScanned P s' answer
  unfolding scan_file
  scan_file_rule polls source s k =
      elim (Bool-cases (ltb (length (content_of source s)) (scan_context s))) [
        | inl short ↦ rw short (0, k, refl)
        | inr long ↦ rw long (
            scan_file_loop_rule (suc (length (content_of source s))) polls source
              (length (content_of source s)) (max stream_chunk_size (scan_context s * 2)) 0 0 s k)
      ]

  pub submit_source_file_rule :
      (polls : ℕ → Bool) (content : Bytes) (s : ZsyncAssembly)
      → P s 0
      → let (s', answer) = submit_source_file md4 num_threads on_disk polls content s in
        IsScanned P s' answer
  unfolding submit_source_file
  submit_source_file_rule polls content s k = scan_file_rule polls (ScanFile.other_file content) s k

  pub submit_self_referential_rule :
      (polls : ℕ → Bool) (s : ZsyncAssembly)
      → P s 0
      → let (s', answer) = submit_self_referential md4 num_threads on_disk polls s in
        IsScanned P s' answer
  unfolding submit_self_referential
  submit_self_referential_rule polls s k = elim (Option-cases s.file) [
    | inl unopened ↦ rw (unopened, submit_self_referential) (0, k, refl)
    | inr (content, there) ↦
        rw (there, submit_self_referential) (scan_file_rule polls ScanFile.temp_file s k)
  ]
