-- ===== src/Assembly/Download/Rule/Ranges.antt =====
-- The loops over the ranges and the reads of `download_missing_blocks` in src/assembly.rs.
use zsync_rs.Prelude.{ℕ, zero, suc, ◌*◌, ◌/◌, ◌%◌, ◌<◌, arith, inl, inr, Bool, [], ◌∷◌, ◌++◌}
use zsync_rs.Prelude.{length, replicate, Bool-cases, Option-cases, Option, length-replicate}
use zsync_rs.Control.{Bytes}
use zsync_rs.Http.Client.{
  Answer, Result, HttpRangeReader, HttpClient, fetch_range_reader, range_read,
}
use zsync_rs.Http.Ranges.{ByteRanges}
use zsync_rs.Assembly.Download.Keeps.{List-cases}
use zsync_rs.Http.Client.{Result-cases}
use zsync_rs.Assembly.{ZsyncAssembly, AssemblyError}
use zsync_rs.Assembly.Download.{
  Fill, fill_loop, read_loop, read_range, range_loop, download_missing_blocks,
}
use zsync_rs.Assembly.Download.Rule.{IsKept, Holds, IsDrained, fill_loop_rule, fill_tail_rule}

module _ (md4 : Bytes → Bytes) (on_disk : Bytes) {P : ZsyncAssembly → ℕ → Type 0}
    (kept : IsKept md4 on_disk P) {W R : Type 0} (call : W → Bytes → ℕ → ℕ → W × Answer R)
    (read_inner : R → ℕ → R × Option Bytes) (poll : W → W × Bool) where
  read_loop_rule :
      (rounds : ℕ) (w : W) (reader : HttpRangeReader R) (f : Fill)
      → Holds md4 on_disk kept f
      → IsDrained md4 on_disk kept f
      → let (w', f', error) = read_loop md4 on_disk call read_inner poll rounds w reader f in
        Holds md4 on_disk kept f' × IsDrained md4 on_disk kept f'
  unfolding read_loop
  read_loop_rule zero w reader f k drained = (k, drained)
  read_loop_rule (suc rounds) w reader f k drained = elim (Bool-cases (poll w).1) [
    | inl abort ↦ rw abort (k, drained)
    | inr on ↦ elim (Option-cases (range_read read_inner reader (64 * 1024)).1) [
      | inl e ↦ rw (on, e, read_loop) (k, drained)
      | inr ([], e) ↦ rw (on, e, read_loop) (k, drained)
      | inr (byte ∷ bytes, e) ↦
          let buf : Bytes = f.buf ++ (byte ∷ bytes) in
          let (k', drained') =
            fill_loop_rule md4 on_disk kept (length buf) (record f { buf = buf }) k (omega arith) in
          rw (on, e, read_loop)
            (read_loop_rule rounds (poll w).0 (range_read read_inner reader (64 * 1024)).0
              (fill_loop md4 on_disk (length buf) (record f { buf = buf })) k' drained')
    ]
  ]

  read_range_rule :
      (range_start range_end : ℕ) (w : W) (reader : HttpRangeReader R) (s : ZsyncAssembly)
      (downloaded : ℕ)
      → P s downloaded
      → let (w', f, error) =
          read_range md4 on_disk call read_inner poll range_start range_end w reader s downloaded in
        Holds md4 on_disk kept f
  unfolding read_range
  read_range_rule range_start range_end w reader s downloaded k = elim (Option-cases ran.2) [
    | inl e ↦ rw (e, read_range) (fill_tail_rule md4 on_disk kept ran.1 after.0 after.1)
    | inr (error, e) ↦ rw (e, read_range) after.0
  ]
    where
      start : Fill
      start = record {
        assembly = s;
        current_block_id = range_start / s.control.blocksize;
        buf = replicate (range_start % s.control.blocksize) 0;
        downloaded = downloaded;
      }

      ran : W × Fill × Option AssemblyError
      ran = read_loop md4 on_disk call read_inner poll (suc reader.remaining) w reader start

      drained : length start.buf < s.control.blocksize
      drained =
          omega (
            arith,
            kept.sized _ _ k,
            length-replicate {A = ℕ} (range_start % s.control.blocksize) 0,
          )

      after : Holds md4 on_disk kept ran.1 × IsDrained md4 on_disk kept ran.1
      after = read_loop_rule (suc reader.remaining) w reader start k (inl drained)

  range_loop_rule :
      (ranges : ByteRanges) (url : Bytes) (w : W) (s : ZsyncAssembly) (downloaded : ℕ)
      → P s downloaded
      → let (w', s', n, error) =
          range_loop md4 on_disk call read_inner poll ranges url w s downloaded in
        P s' n
  unfolding range_loop
  range_loop_rule [] url w s downloaded k = k
  range_loop_rule ((range_start, range_end) ∷ ranges) url w s downloaded k =
      elim (Bool-cases (poll w).1) [
        | inl abort ↦ rw abort k
        | inr on ↦ elim (Result-cases fetched.2) [
          | inl (e, failed) ↦ rw (on, failed, range_loop) (kept.client s downloaded fetched.1 k)
          | inr (reader, opened) ↦
              let ran =
                read_range md4 on_disk call read_inner poll range_start range_end fetched.0 reader
                  (record s { http = fetched.1 }) downloaded in
              let after : Holds md4 on_disk kept ran.1 =
                read_range_rule range_start range_end fetched.0 reader
                  (record s { http = fetched.1 }) downloaded
                  (kept.client s downloaded fetched.1 k) in
              elim (Option-cases ran.2) [
                | inl none_left ↦
                    rw (on, opened, none_left, range_loop)
                      (range_loop_rule ranges url ran.0 ran.1.assembly ran.1.downloaded after)
                | inr (error, e) ↦ rw (on, opened, e, range_loop) after
              ]
        ]
      ]
    where
      fetched : W × HttpClient × Result (HttpRangeReader R)
      fetched = fetch_range_reader call s.http url range_start range_end (poll w).0

  pub download_missing_blocks_rule :
      (w : W) (s : ZsyncAssembly)
      → P s 0
      → let (w', s', n, error) = download_missing_blocks md4 on_disk call read_inner poll w s in
        P s' n
  unfolding download_missing_blocks
  download_missing_blocks_rule w s k = elim (List-cases s.control.urls) [
    | inl none_given ↦ rw (none_given, download_missing_blocks) k
    | inr (url, urls, given) ↦ rw (given, download_missing_blocks) (range_loop_rule _ _ w s 0 k)
  ]
