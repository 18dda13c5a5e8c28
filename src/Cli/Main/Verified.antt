-- ===== src/Cli/Main/Verified.antt =====
-- What the seeds, the download and the completion of `main` in src/bin/zsync.rs put into the output.
use zsync_rs.Prelude.{
  ℕ, zero, suc, ◌≤◌, ◌≡◌, refl, arith, inl, inr, false, not, ◌&&◌, List, [], ◌∷◌, ltb, ◌==◌, Bool,
  Bool-cases, Option, none, some, Option-cases,
}
use zsync_rs.Control.{Bytes, ControlFile}
use zsync_rs.Matcher.{BlockMatcher, is_complete}
use zsync_rs.Http.Client.{Answer}
use zsync_rs.Assembly.{ZsyncAssembly, AssemblyError, block_stats}
use zsync_rs.Assembly.Download.{download_missing_blocks}
use zsync_rs.Assembly.Download.Rule.Ranges.{download_missing_blocks_rule}
use zsync_rs.Assembly.Scan.{submit_source_file, submit_self_referential}
use zsync_rs.Assembly.Scan.Rule.{submit_source_file_rule, submit_self_referential_rule}
use zsync_rs.Assembly.Store.{Store}
use zsync_rs.Assembly.Store.Download.{IsStored, IsStored-IsKept}
use zsync_rs.Assembly.Store.Scan.{scan_buffer-IsStored}
use zsync_rs.Assembly.Store.Output.{AreBlocks, IsAssembled, Implements-IsAssembled}
use zsync_rs.Assembly.Complete.{Completion, complete}
use zsync_rs.Assembly.Complete.Valid.{IsFinished, complete-IsFinished}
use zsync_rs.Cli.Retry.{Outcome, Attempts, on_error, download_loop, download}
use zsync_rs.Cli.Main.{Exit, never, exit_of, scan_inputs, scan_self, main}

module _ (md4 sha1 : Bytes → Bytes) (num_threads : ℕ) (on_disk : Bytes) {W R : Type 0}
    (call : W → Bytes → ℕ → ℕ → W × Answer R) (read_inner : R → ℕ → R × Option Bytes) (retries : ℕ)
    (control : ControlFile) (m : BlockMatcher) (some_blocks : 1 ≤ m.hash_lengths.seq_matches)
    (before : Store) (total : ℕ) where
  -- The store is implemented, and the count starts anew.
  abbrev IsHeld : ZsyncAssembly → Type 0
  IsHeld s = IsStored md4 on_disk control m before total s.matcher.known_count s 0

  renew :
      (known n : ℕ) (s : ZsyncAssembly)
      → IsStored md4 on_disk control m before total known s n
      → IsHeld s
  renew known n s ((valid, fits, size, count, all), i) = ((valid, fits, size, omega arith, all), i)

  scan_inputs-IsHeld :
      (inputs : List (Option Bytes)) (s : ZsyncAssembly)
      → IsHeld s
      → IsHeld (scan_inputs md4 sha1 num_threads on_disk call read_inner retries inputs s)
  unfolding scan_inputs
  scan_inputs-IsHeld [] s k = k
  scan_inputs-IsHeld (none ∷ inputs) s k = scan_inputs-IsHeld inputs s k
  scan_inputs-IsHeld (some content ∷ inputs) s k =
      let (n, after, _) =
        submit_source_file_rule md4 num_threads on_disk
          (scan_buffer-IsStored md4 num_threads on_disk control m some_blocks before total
            s.matcher.known_count)
          never content s k in
      scan_inputs-IsHeld inputs (submit_source_file md4 num_threads on_disk never content s).0
        (renew s.matcher.known_count n _ after)

  scan_self-IsHeld :
      (s : ZsyncAssembly)
      → IsHeld s
      → IsHeld (scan_self md4 sha1 num_threads on_disk call read_inner retries s)
  unfolding scan_self
  scan_self-IsHeld s k =
      elim (Bool-cases (ltb 0 (block_stats s).0 && not (is_complete s.matcher))) [
        | inr pointless ↦ rw pointless k
        | inl useful ↦
            let (n, after, _) =
              submit_self_referential_rule md4 num_threads on_disk
                (scan_buffer-IsStored md4 num_threads on_disk control m some_blocks before total
                  s.matcher.known_count)
                never s k in
            rw useful (
              renew s.matcher.known_count n
                (submit_self_referential md4 num_threads on_disk never s).0 after)
      ]

  abbrev quiet : W → W × Bool
  quiet w = (w, false)

  download_loop-IsHeld :
      (rounds : ℕ) (w : W) (s : ZsyncAssembly) (a : Attempts)
      → IsHeld s
      → IsHeld (download_loop md4 on_disk call read_inner quiet retries rounds w s a).1
  unfolding download_loop
  download_loop-IsHeld zero w s a k = k
  download_loop-IsHeld (suc rounds) w s a k = elim (Option-cases tried.3) [
    | inl fine ↦ elim (Bool-cases (tried.2 == 0)) [
      | inl nothing_new ↦ rw (fine, download_loop, nothing_new) after
      | inr some_new ↦
          rw (fine, download_loop, some_new) (download_loop-IsHeld rounds tried.0 tried.1 a after)
    ]
    | inr (e, error) ↦ elim (Option-cases (on_error retries e (block_stats tried.1).0 a).1) [
      | inl over ↦ rw (error, download_loop, over) after
      | inr (d, wait) ↦
          rw (error, download_loop, wait)
            (download_loop-IsHeld rounds tried.0 tried.1
              (on_error retries e (block_stats tried.1).0 a).0 after)
    ]
  ]
    where
      tried : W × ZsyncAssembly × ℕ × Option AssemblyError
      tried = download_missing_blocks md4 on_disk call read_inner quiet w s

      after : IsHeld tried.1
      after = renew s.matcher.known_count tried.2 tried.1 (
          download_missing_blocks_rule md4 on_disk
            (IsStored-IsKept md4 on_disk control m before total s.matcher.known_count) call
            read_inner quiet w s k)

  download-IsHeld :
      (rounds : ℕ) (w : W) (s : ZsyncAssembly)
      → IsHeld s
      → IsHeld (download md4 on_disk call read_inner quiet retries rounds w s).1
  unfolding download
  download-IsHeld rounds w s k = elim (Bool-cases (is_complete s.matcher)) [
    | inl all ↦ rw all k
    | inr missing ↦ rw missing (download_loop-IsHeld rounds w s _ k)
  ]

  exit_of-state :
      (ended : W × ZsyncAssembly × List ℕ × Outcome) → (exit_of sha1 on_disk ended).1 ≡ ended.1
  unfolding exit_of
  exit_of-state (w, s, delays, Outcome.ready) = refl
  exit_of-state (w, s, delays, Outcome.out_of_rounds) = refl
  exit_of-state (w, s, delays, Outcome.failed e) = refl
  exit_of-state (w, s, delays, Outcome.mismatched missing all) = refl

  exit_of-completed :
      (ended : W × ZsyncAssembly × List ℕ × Outcome) (c : Completion)
      → (exit_of sha1 on_disk ended).2 ≡ Exit.completed c
      → complete sha1 on_disk ended.1 ≡ c
  unfolding exit_of
  exit_of-completed (w, s, delays, Outcome.ready) c h = cc h
  exit_of-completed (w, s, delays, Outcome.out_of_rounds) c h = cc h
  exit_of-completed (w, s, delays, Outcome.failed e) c h = cc h
  exit_of-completed (w, s, delays, Outcome.mismatched missing all) c h = cc h

  -- Where the known blocks lie on disk with their digests, an output that is put in place is assembled
  -- of blocks with the digests of the control file, and finished.
  pub main-IsHeld :
      (rounds : ℕ) (inputs : List (Option Bytes)) (w : W) (s : ZsyncAssembly)
      → AreBlocks md4 m before
      → IsHeld s
      → let (w', s', exit) =
          main md4 sha1 num_threads on_disk call read_inner retries rounds inputs w s in
        (out : Bytes)
        → exit ≡ Exit.completed (Completion.ok out)
        → IsAssembled md4 m control.file_length out
          × (s'.control ≡ control)
          × IsFinished sha1 on_disk s' out
  unfolding main IsFinished
  main-IsHeld rounds inputs w s sound k out e =
      let finished =
        (complete-IsFinished sha1 on_disk ended.1 out).0
          (exit_of-completed ended (Completion.ok out) e) in
      rw (exit_of-state ended) (
        rw (finished.1, held.1.described)
            (Implements-IsAssembled md4 on_disk control m before ended.1 sound held.1 held.0.0
              finished.0),
        held.1.described,
        finished,
      )
    where
      ended : W × ZsyncAssembly × List ℕ × Outcome
      ended = download md4 on_disk call read_inner quiet retries rounds w (
          scan_self md4 sha1 num_threads on_disk call read_inner retries
            (scan_inputs md4 sha1 num_threads on_disk call read_inner retries inputs s))

      held : IsHeld ended.1
      held = download-IsHeld rounds w _ (scan_self-IsHeld _ (scan_inputs-IsHeld inputs s k))
