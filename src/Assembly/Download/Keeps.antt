-- ===== src/Assembly/Download/Keeps.antt =====
-- What every step of `download_missing_blocks` in src/assembly.rs keeps of an assembly.
use zsync_rs.Prelude.{
  ℕ, zero, suc, ◌-◌, ◌*◌, ◌/◌, ◌%◌, ◌≡◌, ◌⊎◌, refl, inl, inr, Bool, not, List, [], ◌∷◌, ◌++◌,
}
use zsync_rs.Prelude.{length, take, replicate, ltb, leb, ◌&&◌, Bool-cases, Option-cases, Option}
use zsync_rs.Control.{Bytes}
use zsync_rs.Matcher.{BlockMatcher, is_block_known, total_blocks}
use zsync_rs.Matcher.Known.{IsValid}
use zsync_rs.Matcher.Submit.{submit_blocks}
use zsync_rs.Matcher.Submit.Keeps.{IsKnown, submit_blocks-IsValid, submit_blocks_mono}
use zsync_rs.Http.Client.{Result-cases}
use zsync_rs.Http.Client.{
  Answer, Result, HttpRangeReader, HttpClient, fetch_range_reader, range_read,
}
use zsync_rs.Http.Ranges.{ByteRanges}
use zsync_rs.Assembly.{ZsyncAssembly, AssemblyError, write_block}
use zsync_rs.Assembly.Download.{
  Fill, block_data_end, store_block, fill_step, fill_loop, fill_tail, read_loop, read_range,
  range_loop, download_missing_blocks,
}

pub List-cases {ℓ} :
    {A : Type ℓ} (xs : List A) → (xs ≡ []) ⊎ ((x : A) × (rest : List A) × (xs ≡ x ∷ rest))
List-cases [] = inl refl
List-cases (x ∷ xs) = inr (x, xs, refl)

-- The matcher is valid, and it knows the blocks that it knew at first.
pub Keeps : BlockMatcher → ZsyncAssembly → Type 0
Keeps m s = IsValid s.matcher × ((id : ℕ) → IsKnown m id → IsKnown s.matcher id)

module _ (md4 : Bytes → Bytes) (on_disk : Bytes) (m : BlockMatcher) where
  store_block-Keeps :
      (len : ℕ) (f : Fill) → Keeps m f.assembly → Keeps m (store_block md4 on_disk len f).assembly
  unfolding store_block write_block Keeps
  store_block-Keeps len f (valid, knows) = elim (Bool-cases submitted.1) [
    | inl verified ↦ rw verified after
    | inr refused ↦ rw refused after
  ]
    where
      submitted : BlockMatcher × Bool
      submitted =
          let block = take len f.buf in
          submit_blocks md4 (block ++ replicate (f.assembly.control.blocksize - length block) 0)
            f.current_block_id f.assembly.matcher

      after : IsValid submitted.0 × ((id : ℕ) → IsKnown m id → IsKnown submitted.0 id)
      after = (
        submit_blocks-IsValid md4 _ f.current_block_id f.assembly.matcher valid,
        λ id h. submit_blocks_mono md4 _ f.current_block_id f.assembly.matcher id (knows id h),
      )

  fill_step-Keeps : (f : Fill) → Keeps m f.assembly → Keeps m (fill_step md4 on_disk f).assembly
  unfolding fill_step
  fill_step-Keeps f k = elim (Bool-cases (is_block_known f.assembly.matcher f.current_block_id)) [
    | inl known ↦ rw known k
    | inr missing ↦
        rw missing (store_block-Keeps (block_data_end f.assembly f.current_block_id) f k)
  ]

  fill_loop-Keeps :
      (rounds : ℕ) (f : Fill)
      → Keeps m f.assembly
      → Keeps m (fill_loop md4 on_disk rounds f).assembly
  unfolding fill_loop
  fill_loop-Keeps zero f k = k
  fill_loop-Keeps (suc rounds) f k =
      elim (Bool-cases (ltb (length f.buf) f.assembly.control.blocksize)) [
        | inl short ↦ rw short k
        | inr enough ↦
            elim (Bool-cases (leb (total_blocks f.assembly.matcher) f.current_block_id)) [
              | inl past ↦ rw (enough, past) k
              | inr inside ↦
                  rw (enough, inside)
                    (fill_loop-Keeps rounds (fill_step md4 on_disk f) (fill_step-Keeps f k))
            ]
      ]

  fill_tail-Keeps : (f : Fill) → Keeps m f.assembly → Keeps m (fill_tail md4 on_disk f).assembly
  unfolding fill_tail
  fill_tail-Keeps f k =
      elim (Bool-cases (
        ltb 0 (length f.buf)
        && ltb f.current_block_id (total_blocks f.assembly.matcher)
        && not (is_block_known f.assembly.matcher f.current_block_id))) [
          | inl left ↦ rw left (store_block-Keeps (length f.buf) f k)
          | inr nothing ↦ rw nothing k
        ]

  module _ {W R : Type 0} (call : W → Bytes → ℕ → ℕ → W × Answer R)
      (read_inner : R → ℕ → R × Option Bytes) (poll : W → W × Bool) where
    read_loop-Keeps :
        (rounds : ℕ) (w : W) (reader : HttpRangeReader R) (f : Fill)
        → Keeps m f.assembly
        → Keeps m (read_loop md4 on_disk call read_inner poll rounds w reader f).1.assembly
    unfolding read_loop
    read_loop-Keeps zero w reader f k = k
    read_loop-Keeps (suc rounds) w reader f k = elim (Bool-cases (poll w).1) [
      | inl abort ↦ rw abort k
      | inr on ↦ elim (Option-cases (range_read read_inner reader (64 * 1024)).1) [
        | inl e ↦ rw (on, e, read_loop) k
        | inr ([], e) ↦ rw (on, e, read_loop) k
        | inr (byte ∷ bytes, e) ↦
            rw (on, e, read_loop)
              (read_loop-Keeps rounds (poll w).0 (range_read read_inner reader (64 * 1024)).0
                (fill_loop md4 on_disk (length (f.buf ++ (byte ∷ bytes)))
                  (record f { buf = f.buf ++ (byte ∷ bytes) }))
                (fill_loop-Keeps (length (f.buf ++ (byte ∷ bytes)))
                  (record f { buf = f.buf ++ (byte ∷ bytes) }) k))
      ]
    ]

    read_range-Keeps :
        (range_start range_end : ℕ) (w : W) (reader : HttpRangeReader R) (s : ZsyncAssembly)
        (downloaded : ℕ)
        → Keeps m s
        → Keeps m
            (read_range md4 on_disk call read_inner poll range_start range_end w reader s
              downloaded).1.assembly
    unfolding read_range
    read_range-Keeps range_start range_end w reader s downloaded k = elim (Option-cases ran.2) [
      | inl e ↦ rw (e, read_range) (fill_tail-Keeps ran.1 after)
      | inr (error, e) ↦ rw (e, read_range) after
    ]
      where
        start : Fill
        start = record {
          assembly = s;
          current_block_id = range_start / s.control.blocksize;
          buf = replicate (range_start % s.control.blocksize) 0;
          downloaded = downloaded;
        }

        ran : W × Fill × Option AssemblyError
        ran = read_loop md4 on_disk call read_inner poll (suc reader.remaining) w reader start

        after : Keeps m ran.1.assembly
        after = read_loop-Keeps (suc reader.remaining) w reader start k

    range_loop-Keeps :
        (ranges : ByteRanges) (url : Bytes) (w : W) (s : ZsyncAssembly) (downloaded : ℕ)
        → Keeps m s
        → Keeps m (range_loop md4 on_disk call read_inner poll ranges url w s downloaded).1
    unfolding range_loop Keeps
    range_loop-Keeps [] url w s downloaded k = k
    range_loop-Keeps ((range_start, range_end) ∷ ranges) url w s downloaded k =
        elim (Bool-cases (poll w).1) [
          | inl abort ↦ rw abort k
          | inr on ↦ elim (Result-cases fetched.2) [
            | inl (e, failed) ↦ rw (on, failed, range_loop) k
            | inr (reader, opened) ↦
                let ran =
                  read_range md4 on_disk call read_inner poll range_start range_end fetched.0 reader
                    (record s { http = fetched.1 }) downloaded in
                let after : Keeps m ran.1.assembly =
                  read_range-Keeps range_start range_end fetched.0 reader
                    (record s { http = fetched.1 }) downloaded k in
                elim (Option-cases ran.2) [
                  | inl none_left ↦
                      rw (on, opened, none_left, range_loop)
                        (range_loop-Keeps ranges url ran.0 ran.1.assembly ran.1.downloaded after)
                  | inr (error, e) ↦ rw (on, opened, e, range_loop) after
                ]
          ]
        ]
      where
        fetched : W × HttpClient × Result (HttpRangeReader R)
        fetched = fetch_range_reader call s.http url range_start range_end (poll w).0

-- From a valid matcher, however the requests, the reads and the abort flag go, a download leaves a
-- valid matcher in which every block that was known is known: an error or an abort loses nothing.
pub download_missing_blocks-Keeps :
    (md4 : Bytes → Bytes) (on_disk : Bytes) {W R : Type 0} (call : W → Bytes → ℕ → ℕ → W × Answer R)
    (read_inner : R → ℕ → R × Option Bytes) (poll : W → W × Bool) (w : W) (s : ZsyncAssembly)
    → IsValid s.matcher
    → Keeps s.matcher (download_missing_blocks md4 on_disk call read_inner poll w s).1
unfolding download_missing_blocks Keeps
download_missing_blocks-Keeps md4 on_disk call read_inner poll w s valid =
    elim (List-cases s.control.urls) [
      | inl none_given ↦ rw (none_given, download_missing_blocks) start
      | inr (url, urls, given) ↦
          rw (given, download_missing_blocks)
            (range_loop-Keeps md4 on_disk s.matcher call read_inner poll _ _ w s 0 start)
    ]
  where
    start : IsValid s.matcher × ((id : ℕ) → IsKnown s.matcher id → IsKnown s.matcher id)
    start = (valid, λ id h. h)
