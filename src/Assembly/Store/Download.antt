-- ===== src/Assembly/Store/Download.antt =====
-- A download implements the store: `download_missing_blocks` of src/assembly.rs.
use native.Mathlib.Decide.{ℕ_discrete}
use zsync_rs.Prelude.{
  ℕ, ◌-◌, ◌≤◌, ◌<◌, ◌≡◌, refl, sym, ap, ◌∙◌, arith, inl, inr, Bool, true, false, ◌++◌, length, take,
  replicate, ◌==◌, if◌then◌else◌, Option, Bool-cases, length-append, length-take, length-set,
  length-replicate, get_or-set_self, get_or-set_ne, ==_refl, ==_of_ne,
}
use zsync_rs.Control.{Bytes, ControlFile}
use zsync_rs.Matcher.{BlockMatcher, target_at, is_block_known, mark_known, total_blocks}
use zsync_rs.Matcher.Chain.{same_checksum}
use zsync_rs.Matcher.Chain.Sound.{same_checksum-SameDigest}
use zsync_rs.Matcher.Known.{mark_known_lem}
use zsync_rs.Matcher.Submit.{submit_blocks}
use zsync_rs.Matcher.Submit.Single.{submit_blocks_single}
use zsync_rs.Http.Client.{Answer}
use zsync_rs.Assembly.{ZsyncAssembly, opened, write_block}
use zsync_rs.Assembly.Download.{Fill, store_block, download_missing_blocks}
use zsync_rs.Assembly.Download.Rule.{IsKept}
use zsync_rs.Assembly.Download.Rule.Ranges.{download_missing_blocks_rule}
use zsync_rs.Assembly.Download.Counts.Buffer.{IsCounted, IsCounted-IsKept}
use zsync_rs.Assembly.Store.{Store, IsBlock, nothing, stored, IsBlank, Implements}
use zsync_rs.Assembly.Store.Disk.{held-write_at, IsBlank-write_at, learn_at}

mark_known-is_block_known :
    (m : BlockMatcher) (id j : ℕ)
    → id < length m.known_blocks
    → is_block_known (mark_known id m) j ≡ (if id == j then true else is_block_known m j)
unfolding is_block_known
mark_known-is_block_known m id j inside =
    rw ((mark_known_lem id m).1, length-set m.known_blocks id true)
      (elim (ℕ_discrete id j) [
        | yes same ↦
            rw (← same, get_or-set_self m.known_blocks id true false inside, ==_refl id)
              (ground arith)
        | no other ↦
            rw (get_or-set_ne m.known_blocks id j true false other, ==_of_ne id j other) refl
      ])

module _ (md4 : Bytes → Bytes) (on_disk : Bytes) (control : ControlFile) (m : BlockMatcher)
    (before : Store) (total known : ℕ) where
  -- The counted invariant, and the store.
  abbrev pub IsStored : ZsyncAssembly → ℕ → Type 0
  IsStored s n = IsCounted total known s n × Implements md4 on_disk control m before s

  store_block-Implements :
      (len : ℕ) (f : Fill)
      → IsStored f.assembly f.downloaded
      → len ≤ f.assembly.control.blocksize
      → len ≤ length f.buf
      → f.current_block_id < total_blocks f.assembly.matcher
      → is_block_known f.assembly.matcher f.current_block_id ≡ false
      → Implements md4 on_disk control m before (store_block md4 on_disk len f).assembly
  unfolding store_block write_block total_blocks
  store_block-Implements len f ((valid, fits, size, count, all), i) short available inside unknown =
      elim (Bool-cases (same_checksum s.matcher (md4 padded) (target_at s.matcher id).checksum)) [
        | inr bad ↦ rw (single, bad) i
        | inl good ↦
            rw (single, good)
              (record {
                described = i.described;
                targets = (mark_known_lem id s.matcher).0 ∙ i.targets;
                hash_lengths = (mark_known_lem id s.matcher).2 ∙ i.hash_lengths;
                blocksize = i.blocksize;
                blank =
                    IsBlank-write_at content id s.control.blocksize block block_short
                      (is_block_known s.matcher) (is_block_known (mark_known id s.matcher))
                      (total_blocks (mark_known id s.matcher)) grown
                      (λ j below.
                        i.blank j
                          (omega (arith, below, ap length (mark_known_lem id s.matcher).0)));
                learns =
                    learn_at md4 m before (stored on_disk s) _ id padded i.learns (rw unknown refl)
                      (is_block good)
                      (held-write_at content id s.control.blocksize block block_short
                        (is_block_known s.matcher) (is_block_known (mark_known id s.matcher))
                        (λ k behind below. i.blank id inside unknown k below) grown);
              })
      ]
    where
      s : ZsyncAssembly
      s = f.assembly

      id : ℕ
      id = f.current_block_id

      content : Bytes
      content = opened on_disk s.file

      block : Bytes
      block = take len f.buf

      padded : Bytes
      padded = block ++ replicate (s.control.blocksize - length block) 0

      block_short : length block ≤ s.control.blocksize
      block_short = omega (arith, short, length-take len f.buf)

      length_padded : length padded ≡ s.control.blocksize
      length_padded = omega (
        arith,
        block_short,
        length-append block (replicate (s.control.blocksize - length block) 0),
        length-replicate {A = ℕ} (s.control.blocksize - length block) 0,
      )

      single : submit_blocks md4 padded id s.matcher ≡ (
          if same_checksum s.matcher (md4 padded) (target_at s.matcher id).checksum
          then (mark_known id s.matcher, true)
          else (s.matcher, false))
      single =
          submit_blocks_single md4 s.matcher padded id (omega (arith, fits, size))
            (length_padded ∙ sym fits) inside

      grown :
          (j : ℕ)
          → is_block_known (mark_known id s.matcher) j
            ≡ (if id == j then true else is_block_known s.matcher j)
      grown j = mark_known-is_block_known s.matcher id j (omega (arith, inside, valid.known_length))

      is_block :
          same_checksum s.matcher (md4 padded) (target_at s.matcher id).checksum ≡ true
          → IsBlock md4 m id padded
      is_block good = record {
        in_targets = rw i.targets at inside;
        whole = length_padded ∙ i.blocksize;
        digest =
            rw (i.targets, i.hash_lengths) at
              (same_checksum-SameDigest s.matcher (md4 padded) (target_at s.matcher id).checksum
                good);
      }

  pub IsStored-IsKept : IsKept md4 on_disk IsStored
  IsStored-IsKept = record {
    sized = λ s n k. k.0.2;
    client = λ s n http k. (
      k.0,
      record {
        described = k.1.described;
        targets = k.1.targets;
        hash_lengths = k.1.hash_lengths;
        blocksize = k.1.blocksize;
        blank = k.1.blank;
        learns = k.1.learns;
      },
    );
    stored = λ len f k short available inside unknown. (
      (IsCounted-IsKept md4 on_disk total known).stored len f k.0 short available inside unknown,
      store_block-Implements len f k short available inside unknown,
    );
  }

-- Every assembly implements the store that it stands for.
pub starts :
    (md4 : Bytes → Bytes) (on_disk : Bytes) (s : ZsyncAssembly)
    → s.matcher.blocksize ≡ s.control.blocksize
    → IsBlank
        (is_block_known s.matcher)
        (total_blocks s.matcher)
        (opened on_disk s.file)
        s.control.blocksize
    → Implements md4 on_disk s.control s.matcher (stored on_disk s) s
starts md4 on_disk s fits blank = record {
  described = refl;
  targets = refl;
  hash_lengths = refl;
  blocksize = sym fits;
  blank = blank;
  learns = nothing;
}

-- A download implements the store. From a valid matcher whose block size is that of the control file
-- and at least one, and a temporary file whose missing blocks read as zeros: whatever the requests,
-- the reads and the abort flag do, and however the download ends, the blocks on disk afterwards
-- come from those before by steps in each of which one missing block arrives whole, with the
-- digest of the control file; no block that was there is touched, and what is missing still reads
-- as zeros.
pub download_missing_blocks-Implements :
    (md4 : Bytes → Bytes) (on_disk : Bytes) {W R : Type 0} (call : W → Bytes → ℕ → ℕ → W × Answer R)
    (read_inner : R → ℕ → R × Option Bytes) (poll : W → W × Bool) (w : W) (s : ZsyncAssembly)
    → IsCounted (total_blocks s.matcher) s.matcher.known_count s 0
    → IsBlank
        (is_block_known s.matcher)
        (total_blocks s.matcher)
        (opened on_disk s.file)
        s.control.blocksize
    → Implements md4 on_disk s.control s.matcher
        (stored on_disk s)
        (download_missing_blocks md4 on_disk call read_inner poll w s).1
download_missing_blocks-Implements md4 on_disk call read_inner poll w s k blank =
    (download_missing_blocks_rule md4 on_disk
      (IsStored-IsKept md4 on_disk s.control s.matcher (stored on_disk s) (total_blocks s.matcher)
        s.matcher.known_count)
      call read_inner poll w s (k, starts md4 on_disk s k.1 blank)).1
