-- ===== src/Assembly/Store/Scan.antt =====
-- A scan of local data implements the store: `submit_source_file` and `submit_self_referential` of
-- src/assembly.rs.
use mathlib.Core.Path.{subst}
use zsync_rs.Prelude.{
  ℕ, zero, suc, ◌+◌, ◌≤◌, ◌≡◌, refl, sym, ap, ◌∙◌, arith, inl, inr, Bool, true, false, List, [],
  ◌∷◌, length, get_or, ltb, ◌&&◌, if◌then◌else◌, All-map, Bool-cases, ltb→ge,
}
use zsync_rs.Control.{Bytes, ControlFile}
use zsync_rs.Matcher.{BlockMatcher, is_known_at, is_block_known, total_blocks}
use zsync_rs.Matcher.Chain.{Matches}
use zsync_rs.Matcher.Chain.Sound.{IsMatch}
use zsync_rs.Matcher.Submit.{submit_source_data}
use zsync_rs.Matcher.Submit.Accept.{names}
use zsync_rs.Matcher.Submit.Source.{
  submit_source_data-IsMatch, submit_source_data-records, submit_source_data-keeps,
  submit_source_data-unknown,
}
use zsync_rs.Assembly.{ZsyncAssembly, opened}
use zsync_rs.Assembly.Scan.{scan_buffer, submit_source_file, submit_self_referential}
use zsync_rs.Assembly.Scan.Rule.{submit_source_file_rule, submit_self_referential_rule}
use zsync_rs.Assembly.Download.Counts.Buffer.{IsCounted}
use zsync_rs.Assembly.Scan.Counts.{scan_buffer-IsCounted}
use zsync_rs.Assembly.Store.{Store, Learns, held, stored, IsBlank, Implements}
use zsync_rs.Assembly.Store.Copy.{IsCopied, copy_blocks-keeps, copy_blocks-IsCopied}
use zsync_rs.Assembly.Store.Download.{IsStored, starts}

-- The flags inside the list do not depend on what a read past its end gives.
get_or-inside :
    (flags : List Bool) (id : ℕ)
    → (ltb id (length flags) && get_or flags id false)
      ≡ (ltb id (length flags) && get_or flags id true)
get_or-inside [] id = ground arith
get_or-inside (x ∷ flags) zero = refl
get_or-inside (x ∷ flags) (suc id) = ground (arith, get_or-inside flags id)

known_past : (flags : List Bool) (id : ℕ) → length flags ≤ id → get_or flags id true ≡ true
known_past [] id h = refl
known_past (x ∷ flags) zero h = absurd (omega arith)
known_past (x ∷ flags) (suc id) h = known_past flags id (omega arith)

module _ (md4 : Bytes → Bytes) (num_threads : ℕ) (on_disk : Bytes) where
  module _ (control : ControlFile) (m : BlockMatcher) (some_blocks : 1 ≤ m.hash_lengths.seq_matches)
      (before : Store) (total known : ℕ) where
    -- A match in terms of the matcher at hand is one in terms of the first.
    IsMatch-first :
        (m' : BlockMatcher) (buf : Bytes) (overlap_start : ℕ)
        → m'.targets ≡ m.targets
        → m'.hash_lengths ≡ m.hash_lengths
        → m'.blocksize ≡ m.blocksize
        → (found : ℕ × ℕ) → IsMatch md4 m' buf overlap_start found
        → IsMatch md4 m buf overlap_start found
    IsMatch-first m' buf overlap_start targets lengths sizes found (x, e, v) = (
      x,
      e,
      record {
        in_targets = rw targets at (v.in_targets);
        in_input = rw sizes at (v.in_input);
        digest = rw (targets, lengths, sizes) at (v.digest);
      },
    )

    module _ (buf : Bytes) (overlap_start n : ℕ) (s : ZsyncAssembly)
        (k : IsStored md4 on_disk control m before total known s n) where
      abbrev scanned : BlockMatcher × Matches
      scanned = submit_source_data md4 num_threads buf overlap_start s.matcher

      flags_length :
          (length s.matcher.known_blocks ≡ length m.targets)
          × (length scanned.0.known_blocks ≡ length m.targets)
      flags_length =
          let kept = submit_source_data-keeps md4 s.matcher buf num_threads overlap_start in
          let records =
            submit_source_data-records md4 s.matcher buf num_threads overlap_start k.0.0 in
          let same : length s.matcher.targets ≡ length m.targets = ap length k.1.targets in
          (k.0.0.known_length ∙ same, records.0.known_length ∙ ap length kept.0 ∙ same)

      now_known :
          (id : ℕ)
          → is_block_known scanned.0 id
            ≡ (if is_block_known s.matcher id then true else names id scanned.1)
      unfolding is_block_known
      now_known id =
          rw
            (
              get_or-inside s.matcher.known_blocks id,
              get_or-inside scanned.0.known_blocks id,
              flags_length.0,
              flags_length.1,
            )
            (elim (Bool-cases (ltb id (length m.targets))) [
              | inl inside ↦ rw inside (
                  (submit_source_data-records md4 s.matcher buf num_threads overlap_start k.0.0).1
                    id)
              | inr outside ↦ rw outside (
                  sym (
                    submit_source_data-unknown md4 s.matcher buf num_threads overlap_start id (
                      known_past s.matcher.known_blocks id
                        (omega (arith, flags_length.0, ltb→ge id (length m.targets) outside)))))
            ])

      unknown_found : (id : ℕ) → names id scanned.1 ≡ true → is_block_known s.matcher id ≡ false
      unfolding is_block_known
      unknown_found id h =
          rw (get_or-inside s.matcher.known_blocks id)
            (elim (Bool-cases (is_known_at s.matcher id)) [
              | inl old ↦
                  cc (
                    h,
                    submit_source_data-unknown md4 s.matcher buf num_threads overlap_start id old,
                  )
              | inr new ↦ rw new (ground arith)
            ])

      start :
          IsCopied md4 num_threads on_disk m before buf overlap_start
            (is_block_known s.matcher)
            scanned.1
            (record s { matcher = scanned.0 })
      unfolding total_blocks
      start = record {
        matches =
            All-map (IsMatch md4 s.matcher buf overlap_start) (IsMatch md4 m buf overlap_start)
              scanned.1
              (IsMatch-first s.matcher buf overlap_start k.1.targets k.1.hash_lengths
                (k.0.1 ∙ k.1.blocksize))
              (submit_source_data-IsMatch md4 s.matcher buf num_threads overlap_start k.0.0
                (omega (arith, k.0.1, k.0.2)) (rw k.1.hash_lengths some_blocks));
        distinct = (submit_source_data-records md4 s.matcher buf num_threads overlap_start k.0.0).2;
        unknown = unknown_found;
        blocksize = k.1.blocksize;
        blank = λ id inside. k.1.blank id (omega (arith, inside, ap length k.1.targets));
        learns = k.1.learns;
      }

      copied : ZsyncAssembly
      copied = (scan_buffer md4 num_threads on_disk buf overlap_start s).0

      scan_buffer-Implements : Implements md4 on_disk control m before copied
      unfolding copied scan_buffer total_blocks
      scan_buffer-Implements = record {
        described = kept.1 ∙ k.1.described;
        targets = ap (λ t. t.targets) kept.0 ∙ scan_kept.0 ∙ k.1.targets;
        hash_lengths = ap (λ t. t.hash_lengths) kept.0 ∙ scan_kept.2 ∙ k.1.hash_lengths;
        blocksize = done.blocksize;
        blank =
            subst
              (λ t.
                IsBlank (is_block_known t) (total_blocks t) (opened on_disk copied.file)
                  copied.control.blocksize)
              (sym kept.0) (λ id inside. done.blank id (omega (arith, inside, same_length)));
        learns =
            subst
              (λ t.
                Learns md4 m before
                  (held (is_block_known t) (opened on_disk copied.file) copied.control.blocksize))
              (sym kept.0) done.learns;
      }
        where
          kept : (copied.matcher ≡ scanned.0) × (copied.control ≡ s.control)
          kept =
              copy_blocks-keeps md4 num_threads on_disk buf overlap_start scanned.1
                (record s { matcher = scanned.0 })

          scan_kept :
              (scanned.0.targets ≡ s.matcher.targets)
              × (scanned.0.blocksize ≡ s.matcher.blocksize)
              × (scanned.0.hash_lengths ≡ s.matcher.hash_lengths)
          scan_kept = submit_source_data-keeps md4 s.matcher buf num_threads overlap_start

          same_length : total_blocks scanned.0 ≡ length m.targets
          same_length = ap length (scan_kept.0 ∙ k.1.targets)

          done :
              IsCopied md4 num_threads on_disk m before buf overlap_start
                (is_block_known scanned.0)
                []
                copied
          done =
              copy_blocks-IsCopied md4 num_threads on_disk m before buf overlap_start scanned.1
                (is_block_known s.matcher) (is_block_known scanned.0)
                (record s { matcher = scanned.0 }) start now_known

    pub scan_buffer-IsStored :
        (buf : Bytes) (overlap_start n : ℕ) (s : ZsyncAssembly)
        → IsStored md4 on_disk control m before total known s n
        → let (s', found) = scan_buffer md4 num_threads on_disk buf overlap_start s in
          IsStored md4 on_disk control m before total known s' (n + found)
    unfolding copied
    scan_buffer-IsStored buf overlap_start n s k = (
      scan_buffer-IsCounted md4 num_threads on_disk total known buf overlap_start n s k.0,
      scan_buffer-Implements buf overlap_start n s k,
    )

-- A local file implements the store. From a valid matcher whose block size is that of the control
-- file, with block size and `seq_matches` at least one, and a temporary file whose missing blocks read as
-- zeros: whatever the file holds, on any number of threads, and whether or not the abort flag stops
-- the scan, the blocks on disk afterwards come from those before by steps in each of which one missing
-- block arrives whole, with the digest of the control file; no block that was there is touched, and
-- what is missing still reads as zeros.
pub submit_source_file-Implements :
    (md4 : Bytes → Bytes) (num_threads : ℕ) (on_disk : Bytes) (polls : ℕ → Bool) (content : Bytes)
    (s : ZsyncAssembly)
    → IsCounted (total_blocks s.matcher) s.matcher.known_count s 0
    → 1 ≤ s.matcher.hash_lengths.seq_matches
    → IsBlank
        (is_block_known s.matcher)
        (total_blocks s.matcher)
        (opened on_disk s.file)
        s.control.blocksize
    → Implements md4 on_disk s.control s.matcher
        (stored on_disk s)
        (submit_source_file md4 num_threads on_disk polls content s).0
submit_source_file-Implements md4 num_threads on_disk polls content s k some_blocks blank =
    (submit_source_file_rule md4 num_threads on_disk
      (scan_buffer-IsStored md4 num_threads on_disk s.control s.matcher some_blocks
        (stored on_disk s) (total_blocks s.matcher) s.matcher.known_count)
      polls content s (k, starts md4 on_disk s k.1 blank)).1.1

-- So does the scan of the temporary file itself.
pub submit_self_referential-Implements :
    (md4 : Bytes → Bytes) (num_threads : ℕ) (on_disk : Bytes) (polls : ℕ → Bool) (s : ZsyncAssembly)
    → IsCounted (total_blocks s.matcher) s.matcher.known_count s 0
    → 1 ≤ s.matcher.hash_lengths.seq_matches
    → IsBlank
        (is_block_known s.matcher)
        (total_blocks s.matcher)
        (opened on_disk s.file)
        s.control.blocksize
    → Implements md4 on_disk s.control s.matcher
        (stored on_disk s)
        (submit_self_referential md4 num_threads on_disk polls s).0
submit_self_referential-Implements md4 num_threads on_disk polls s k some_blocks blank =
    (submit_self_referential_rule md4 num_threads on_disk
      (scan_buffer-IsStored md4 num_threads on_disk s.control s.matcher some_blocks
        (stored on_disk s) (total_blocks s.matcher) s.matcher.known_count)
      polls s (k, starts md4 on_disk s k.1 blank)).1.1
