-- ===== src/Assembly/Download/Counts/Buffer.antt =====
-- What an attempt to store a block in `download_missing_blocks` of src/assembly.rs counts.
use zsync_rs.Prelude.{
  ℕ, zero, suc, ◌+◌, ◌-◌, ◌≤◌, ◌<◌, ◌≡◌, refl, ◌∙◌, arith, inl, inr, Bool, true, false, List, [],
  ◌∷◌, ◌++◌,
}
use zsync_rs.Prelude.{
  length, take, get_or, replicate, lt→ltb, if◌then◌else◌, Bool-cases, length-append, length-take,
  length-replicate,
}
use zsync_rs.Control.{Bytes}
use zsync_rs.Matcher.{BlockMatcher, is_known_at, is_block_known, total_blocks}
use zsync_rs.Matcher.Known.{IsValid}
use zsync_rs.Matcher.Submit.{submit_blocks}
use zsync_rs.Matcher.Submit.Keeps.{submit_blocks-IsValid}
use zsync_rs.Matcher.Submit.Single.{submit_blocks_single_count}
use zsync_rs.Assembly.{ZsyncAssembly, write_block}
use zsync_rs.Assembly.Download.Rule.{IsKept}
use zsync_rs.Assembly.Download.{Fill, store_block}

-- A valid matcher of `total` blocks that fits its control file, and knows `n` blocks more than `before`.
abbrev pub IsCounted : ℕ → ℕ → ZsyncAssembly → ℕ → Type 0
IsCounted total before s n =
    IsValid s.matcher
    × (s.matcher.blocksize ≡ s.control.blocksize)
    × (1 ≤ s.control.blocksize)
    × (s.matcher.known_count ≡ before + n)
    × (total_blocks s.matcher ≡ total)

abbrev pub FillCounted : ℕ → ℕ → Fill → Type 0
FillCounted total before f = IsCounted total before f.assembly f.downloaded

get_or-inside :
    (known : List Bool) (id : ℕ) → id < length known → get_or known id true ≡ get_or known id false
get_or-inside [] id h = absurd (omega arith)
get_or-inside (x ∷ known) zero h = refl
get_or-inside (x ∷ known) (suc id) h = get_or-inside known id (omega arith)

unknown_at :
    (m : BlockMatcher) (id : ℕ)
    → IsValid m
    → id < total_blocks m
    → is_block_known m id ≡ false
    → is_known_at m id ≡ false
unfolding total_blocks is_block_known
unknown_at m id valid inside unknown =
    let here : id < length m.known_blocks = omega (arith, inside, valid.known_length) in
    get_or-inside m.known_blocks id here ∙ rw (lt→ltb id (length m.known_blocks) here) at unknown

module _ (md4 : Bytes → Bytes) (on_disk : Bytes) (total before : ℕ) where
  store_block-IsCounted :
      (len : ℕ) (f : Fill)
      → FillCounted total before f
      → len ≤ f.assembly.control.blocksize
      → len ≤ length f.buf
      → f.current_block_id < total_blocks f.assembly.matcher
      → is_block_known f.assembly.matcher f.current_block_id ≡ false
      → FillCounted total before (store_block md4 on_disk len f)
  unfolding store_block write_block total_blocks is_block_known
  store_block-IsCounted len f (valid, fits, size, count, all) short held inside unknown =
      elim (Bool-cases submitted.1) [
        | inl verified ↦ rw verified (
          after,
          single.1 ∙ fits,
          size,
          omega (arith, count, rw verified at single.0),
          single.2 ∙ all,
        )
        | inr refused ↦ rw refused (
          after,
          single.1 ∙ fits,
          size,
          omega (arith, count, rw refused at single.0),
          single.2 ∙ all,
        )
      ]
    where
      block : Bytes
      block = take len f.buf

      padded : Bytes
      padded = block ++ replicate (f.assembly.control.blocksize - length block) 0

      submitted : BlockMatcher × Bool
      submitted = submit_blocks md4 padded f.current_block_id f.assembly.matcher

      length_padded : length padded ≡ f.assembly.matcher.blocksize
      length_padded = omega (
        arith,
        fits,
        length-append block (replicate (f.assembly.control.blocksize - length block) 0),
        length-take len f.buf,
        length-replicate {A = ℕ} (f.assembly.control.blocksize - length block) 0,
      )

      single :
          (submitted.0.known_count
            ≡ f.assembly.matcher.known_count + (if submitted.1 then 1 else 0))
          × (submitted.0.blocksize ≡ f.assembly.matcher.blocksize)
          × (length submitted.0.targets ≡ length f.assembly.matcher.targets)
      single =
          submit_blocks_single_count md4 f.assembly.matcher padded f.current_block_id
            (omega (arith, fits, size)) length_padded inside
            (unknown_at f.assembly.matcher f.current_block_id valid inside unknown)

      after : IsValid submitted.0
      after = submit_blocks-IsValid md4 padded f.current_block_id f.assembly.matcher valid

  pub IsCounted-IsKept : IsKept md4 on_disk (IsCounted total before)
  IsCounted-IsKept = record {
    sized = λ s n k. k.2;
    client = λ s n http k. k;
    stored = store_block-IsCounted;
  }
