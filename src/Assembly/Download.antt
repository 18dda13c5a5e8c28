-- ===== src/Assembly/Download.antt =====
-- `download_missing_blocks` of src/assembly.rs.
pub mod Keeps
pub mod Rule
pub mod Counts
use zsync_rs.Prelude.{ℕ, zero, suc, ◌+◌, ◌-◌, ◌*◌, ◌/◌, ◌%◌, Bool, not, [], ◌∷◌, ◌++◌}
use zsync_rs.Prelude.{
  length, take, drop, replicate, ltb, leb, ◌==◌, if◌then◌else◌, ◌&&◌, Option, none, some,
}
use zsync_rs.Control.{Bytes}
use zsync_rs.Matcher.{is_block_known, total_blocks}
use zsync_rs.Matcher.Submit.{submit_blocks}
use zsync_rs.Matcher.Ranges.{needed_block_ranges}
use zsync_rs.Http.{HttpError}
use zsync_rs.Http.Client.{Answer, Result, HttpRangeReader, range_read, fetch_range_reader}
use zsync_rs.Http.Ranges.{ByteRanges, byte_ranges_from_block_ranges, merge_byte_ranges}
use zsync_rs.Assembly.{ZsyncAssembly, AssemblyError, write_block}
use zsync_rs.Assembly.Urls.{resolve_url}

-- The variables of the loop over the bytes of one range.
pub record Fill : Type 0 where
  pub assembly : ZsyncAssembly
  pub current_block_id : ℕ
  pub buf : Bytes
  pub downloaded : ℕ

-- How much of a block lies in the target.
unfoldable pub block_data_end : ZsyncAssembly → ℕ → ℕ
block_data_end s id =
    let size = s.control.blocksize in
    let last = s.control.file_length % size in
    if id == total_blocks s.matcher - 1 then (if last == 0 then size else last) else size

module _ (md4 : Bytes → Bytes) (on_disk : Bytes) where
  -- The first `len` bytes of the buffer are tried as the current block, padded with zeros, and
  -- written if they verify.
  unfoldable pub store_block : ℕ → Fill → Fill
  store_block len f =
      let s = f.assembly in
      let size = s.control.blocksize in
      let block = take len f.buf in
      let padded = block ++ replicate (size - length block) 0 in
      let (matcher, verified) = submit_blocks md4 padded f.current_block_id s.matcher in
      let s' = record s { matcher = matcher } in
      if verified
      then record f {
        assembly = write_block on_disk (f.current_block_id * size) block s';
        downloaded = f.downloaded + 1;
      }
      else record f { assembly = s' }

  -- One round of `while buf_len >= blocksize`.
  fill_step : Fill → Fill
  unfolding store_block
  fill_step f =
      let s = f.assembly in
      let f' =
        if is_block_known s.matcher f.current_block_id
        then f
        else store_block (block_data_end s f.current_block_id) f in
      record f' { current_block_id = f.current_block_id + 1; buf = drop s.control.blocksize f.buf }

  -- Each round takes a block off the buffer, so its length bounds the rounds.
  pub fill_loop : ℕ → Fill → Fill
  unfolding fill_step
  fill_loop zero f = f
  fill_loop (suc rounds) f =
      let rest = fill_loop rounds (fill_step f) in
      if ltb (length f.buf) f.assembly.control.blocksize
      then f
      else if leb (total_blocks f.assembly.matcher) f.current_block_id
      then f
      else rest

  -- What is left of the buffer at the end of the range.
  pub fill_tail : Fill → Fill
  unfolding store_block
  fill_tail f =
      let known = is_block_known f.assembly.matcher f.current_block_id in
      if ltb 0 (length f.buf)
        && ltb f.current_block_id (total_blocks f.assembly.matcher)
        && not known
      then store_block (length f.buf) f
      else f

  module _ {W R : Type 0} (call : W → Bytes → ℕ → ℕ → W × Answer R)
      (read_inner : R → ℕ → R × Option Bytes) (poll : W → W × Bool) where
    -- The loop over the reads of one range. Each read but the last gives a byte of the range, so its
    -- length, and one more, bound the rounds.
    read_loop : ℕ → W → HttpRangeReader R → Fill → W × Fill × Option AssemblyError
    unfolding fill_loop
    read_loop zero w reader f = (w, f, none)
    read_loop (suc rounds) w reader f =
        let polled = poll w in
        let got = range_read read_inner reader (64 * 1024) in
        let go = λ (bytes : Bytes).
          let buf = f.buf ++ bytes in
          read_loop rounds polled.0 got.0 (fill_loop (length buf) (record f { buf = buf })) in
        if polled.1 then (polled.0, f, some AssemblyError.aborted) else elim got.1 [
          | none ↦ (polled.0, f, some (AssemblyError.http HttpError.io))
          | some [] ↦ (polled.0, f, none)
          | some (byte ∷ bytes) ↦ go (byte ∷ bytes)
        ]

    -- One merged range, once its reader is there.
    read_range : ℕ → ℕ → W → HttpRangeReader R → ZsyncAssembly → ℕ → W × Fill × Option AssemblyError
    unfolding read_loop fill_tail
    read_range range_start range_end w reader s downloaded =
        let size = s.control.blocksize in
        let start : Fill = record {
          assembly = s;
          current_block_id = range_start / size;
          buf = replicate (range_start % size) 0;
          downloaded = downloaded;
        } in
        let (w', f, error) = read_loop (suc reader.remaining) w reader start in
        elim error [ none ↦ (w', fill_tail f, none) | some e ↦ (w', f, some e) ]

    -- `for (range_start, range_end) in merged_ranges`
    range_loop :
        ByteRanges → Bytes → W → ZsyncAssembly → ℕ → W × ZsyncAssembly × ℕ × Option AssemblyError
    unfolding read_range
    range_loop [] url w s downloaded = (w, s, downloaded, none)
    range_loop ((range_start, range_end) ∷ ranges) url w s downloaded =
        let polled = poll w in
        let fetched = fetch_range_reader call s.http url range_start range_end polled.0 in
        let s' = record s { http = fetched.1 } in
        let next = λ (reader : HttpRangeReader R).
          let (w', f, error) = read_range range_start range_end fetched.0 reader s' downloaded in
          let more = range_loop ranges url w' f.assembly f.downloaded in
          elim error as (λ e. W × ZsyncAssembly × ℕ × Option AssemblyError) [
            | none ↦ more
            | some e ↦ (w', f.assembly, f.downloaded, some e)
          ] in
        if polled.1 then (polled.0, s, downloaded, some AssemblyError.aborted) else elim fetched.2 [
          | Result.err e ↦ (fetched.0, s', downloaded, some (AssemblyError.http e))
          | Result.ok reader ↦ next reader
        ]

    -- Where the target is fetched from.
    target_url : ZsyncAssembly → Bytes → Bytes
    target_url s relative = elim s.base_url [
      | none ↦ relative
      | some base ↦ resolve_url base relative
    ]

    -- The assembly afterwards, the number of blocks written, and the error, if one ended the download.
    unfoldable pub download_missing_blocks :
        W → ZsyncAssembly → W × ZsyncAssembly × ℕ × Option AssemblyError
    unfolding range_loop target_url
    download_missing_blocks w s = elim s.control.urls [
      | [] ↦ (w, s, 0, some AssemblyError.no_urls)
      | relative ∷ urls ↦
          let ranges = needed_block_ranges s.matcher in
          let byte_ranges =
            byte_ranges_from_block_ranges ranges s.control.blocksize s.control.file_length in
          range_loop (merge_byte_ranges byte_ranges s.range_gap_threshold) (target_url s relative) w
            s 0
    ]
