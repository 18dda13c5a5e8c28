-- ===== src/Assembly/Scan/Counts.antt =====
-- The number of blocks that a scan of a local file in src/assembly.rs returns.
use zsync_rs.Prelude.{ℕ, ◌+◌, ap, ◌∙◌, arith, Bool, [], ◌∷◌, length}
use zsync_rs.Control.{Bytes}
use zsync_rs.Matcher.{total_blocks}
use zsync_rs.Matcher.Chain.{Matches}
use zsync_rs.Matcher.Submit.{submit_source_data}
use zsync_rs.Matcher.Submit.Source.{submit_source_data-records, submit_source_data-keeps}
use zsync_rs.Assembly.{ZsyncAssembly, write_block}
use zsync_rs.Assembly.Download.Counts.Buffer.{IsCounted}
use zsync_rs.Assembly.Scan.Rule.{IsScanned, submit_source_file_rule, submit_self_referential_rule}
use zsync_rs.Assembly.Scan.{copy_blocks, scan_buffer, submit_source_file, submit_self_referential}

module _ (md4 : Bytes → Bytes) (num_threads : ℕ) (on_disk : Bytes) (total before : ℕ) where
  copy_blocks-IsCounted :
      (buf : Bytes) (overlap_start n : ℕ) (found : Matches) (s : ZsyncAssembly)
      → IsCounted total before s n
      → IsCounted total before (copy_blocks md4 num_threads on_disk buf overlap_start found s) n
  unfolding copy_blocks write_block
  copy_blocks-IsCounted buf overlap_start n [] s k = k
  copy_blocks-IsCounted buf overlap_start n ((block_id, source_offset) ∷ rest) s k =
      copy_blocks-IsCounted buf overlap_start n rest _ k

  pub scan_buffer-IsCounted :
      (buf : Bytes) (overlap_start n : ℕ) (s : ZsyncAssembly)
      → IsCounted total before s n
      → let (s', found) = scan_buffer md4 num_threads on_disk buf overlap_start s in
        IsCounted total before s' (n + found)
  unfolding scan_buffer total_blocks
  scan_buffer-IsCounted buf overlap_start n s (valid, fits, size, count, all) =
      let (valid', _, _, grown) =
        submit_source_data-records md4 s.matcher buf num_threads overlap_start valid in
      let (blocks, sizes, _) =
        submit_source_data-keeps md4 s.matcher buf num_threads overlap_start in
      let (matcher, found) = submit_source_data md4 num_threads buf overlap_start s.matcher in
      copy_blocks-IsCounted buf overlap_start (n + length found) found
        (record s { matcher = matcher })
        (valid', sizes ∙ fits, size, omega (arith, grown, count), ap length blocks ∙ all)

  pub submit_source_file-IsScanned :
      (polls : ℕ → Bool) (content : Bytes) (s : ZsyncAssembly)
      → IsCounted total before s 0
      → let (s', answer) = submit_source_file md4 num_threads on_disk polls content s in
        IsScanned (IsCounted total before) s' answer
  submit_source_file-IsScanned =
      submit_source_file_rule md4 num_threads on_disk scan_buffer-IsCounted

  pub submit_self_referential-IsScanned :
      (polls : ℕ → Bool) (s : ZsyncAssembly)
      → IsCounted total before s 0
      → let (s', answer) = submit_self_referential md4 num_threads on_disk polls s in
        IsScanned (IsCounted total before) s' answer
  submit_self_referential-IsScanned =
      submit_self_referential_rule md4 num_threads on_disk scan_buffer-IsCounted
