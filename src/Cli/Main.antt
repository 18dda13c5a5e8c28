-- ===== src/Cli/Main.antt =====
-- `main` of src/bin/zsync.rs, from the assembly on: the seed files, the temporary file itself, the
-- download, and the completion. What it prints is left out.
pub mod Finished
pub mod Verified
use zsync_rs.Prelude.{
  ℕ, ◌+◌, ◌-◌, Bool, not, ◌&&◌, List, [], ◌∷◌, ltb, if◌then◌else◌, Option, none, some,
}
use zsync_rs.Control.{Bytes}
use zsync_rs.Matcher.{is_complete}
use zsync_rs.Http.Client.{Answer}
use zsync_rs.Assembly.{ZsyncAssembly, block_stats}
use zsync_rs.Assembly.Scan.{submit_source_file, submit_self_referential}
use zsync_rs.Assembly.Complete.{Completion, complete}
use zsync_rs.Cli.Retry.{Outcome, download}

-- How the program ends: with the target in its place, with the error of its completion, or before it.
pub data Exit : Type 0 where
  completed : Completion → Exit
  stopped : Outcome → Exit

-- No abort flag is set, so that a scan comes to its end.
abbrev never : ℕ → Bool
never round = Bool.false

-- What follows the download.
exit_of :
    (Bytes → Bytes)
    → Bytes
    → {W : Type 0} → W × ZsyncAssembly × List ℕ × Outcome
    → W × ZsyncAssembly × Exit
exit_of sha1 on_disk {W} (w, s, delays, outcome) = elim outcome as (λ o. W × ZsyncAssembly × Exit) [
  | Outcome.ready ↦ (w, s, Exit.completed (complete sha1 on_disk s))
  | o ↦ (w, s, Exit.stopped o)
]

module _ (md4 sha1 : Bytes → Bytes) (num_threads : ℕ) (on_disk : Bytes) {W R : Type 0}
    (call : W → Bytes → ℕ → ℕ → W × Answer R) (read_inner : R → ℕ → R × Option Bytes)
    (retries : ℕ) where
  -- `for input_path in &cli.input`; `none` is a file that cannot be read, which is passed over.
  scan_inputs : List (Option Bytes) → ZsyncAssembly → ZsyncAssembly
  scan_inputs [] s = s
  scan_inputs (none ∷ inputs) s = scan_inputs inputs s
  scan_inputs (some content ∷ inputs) s =
      scan_inputs inputs (submit_source_file md4 num_threads on_disk never content s).0

  -- The scan for repeated blocks, where it can find any.
  scan_self : ZsyncAssembly → ZsyncAssembly
  scan_self s =
      let scanned = (submit_self_referential md4 num_threads on_disk never s).0 in
      if ltb 0 (block_stats s).0 && not (is_complete s.matcher) then scanned else s

  unfoldable pub main : ℕ → List (Option Bytes) → W → ZsyncAssembly → W × ZsyncAssembly × Exit
  unfolding scan_inputs scan_self exit_of
  main rounds inputs w s =
      let seeded = scan_self (scan_inputs inputs s) in
      exit_of sha1 on_disk
        (download md4 on_disk call read_inner (λ w. (w, Bool.false)) retries rounds w seeded)
