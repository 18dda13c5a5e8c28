-- ===== src/Cli/Main/Finished.antt =====
-- How `main` of src/bin/zsync.rs ends.
use zsync_rs.Prelude.{
  ℕ, ◌+◌, ◌*◌, ◌≤◌, ◌<◌, ◌≡◌, ◌≢◌, refl, ap, arith, inl, inr, false, not, ◌&&◌, List, [], ◌∷◌, ltb,
  Bool-cases, Option, none, some,
}
use zsync_rs.Control.{Bytes}
use zsync_rs.Matcher.{blocks_todo, total_blocks, is_complete}
use zsync_rs.Matcher.Known.{IsValid}
use zsync_rs.Http.Client.{Answer}
use zsync_rs.Assembly.{ZsyncAssembly, block_stats}
use zsync_rs.Assembly.Download.Counts.Buffer.{IsCounted}
use zsync_rs.Assembly.Scan.{submit_source_file, submit_self_referential}
use zsync_rs.Assembly.Scan.Counts.{submit_source_file-IsScanned, submit_self_referential-IsScanned}
use zsync_rs.Assembly.Complete.{Completion}
use zsync_rs.Assembly.Complete.Valid.{IsFinished, complete-IsFinished}
use zsync_rs.Cli.Retry.{Outcome, download}
use zsync_rs.Cli.Retry.Ends.{download_ends}
use zsync_rs.Cli.Main.{Exit, never, exit_of, scan_inputs, scan_self, main}

-- A valid matcher of `total` blocks that fits its control file.
abbrev pub IsReady : ℕ → ZsyncAssembly → Type 0
IsReady total s = IsCounted total s.matcher.known_count s 0

IsCounted-IsReady :
    (total before n : ℕ) (s : ZsyncAssembly) → IsCounted total before s n → IsReady total s
IsCounted-IsReady total before n s (valid, fits, size, count, all) =
    (valid, fits, size, omega arith, all)

-- The program ends, and the output of one that completes is finished.
abbrev pub IsGoodExit : (Bytes → Bytes) → Bytes → ZsyncAssembly → Exit → Type 0
IsGoodExit sha1 on_disk s exit =
    (exit ≢ Exit.stopped Outcome.out_of_rounds)
    × ((out : Bytes) → exit ≡ Exit.completed (Completion.ok out) → IsFinished sha1 on_disk s out)

completion_of : Exit → Completion
completion_of (Exit.completed c) = c
completion_of (Exit.stopped o) = Completion.ok []

exit_of-IsGoodExit :
    (sha1 : Bytes → Bytes) (on_disk : Bytes) {W : Type 0}
    (ended : W × ZsyncAssembly × List ℕ × Outcome)
    → ended.3 ≢ Outcome.out_of_rounds
    → IsGoodExit sha1 on_disk (exit_of sha1 on_disk ended).1 (exit_of sha1 on_disk ended).2
unfolding exit_of completion_of
exit_of-IsGoodExit sha1 on_disk (w, s, delays, Outcome.ready) h =
    (λ e. cc, λ out e. (complete-IsFinished sha1 on_disk s out).0 (ap completion_of e))
exit_of-IsGoodExit sha1 on_disk (w, s, delays, Outcome.out_of_rounds) h = absurd (h refl)
exit_of-IsGoodExit sha1 on_disk (w, s, delays, Outcome.failed e) h =
    (λ f. absurd (cc f), λ out f. absurd (cc f))
exit_of-IsGoodExit sha1 on_disk (w, s, delays, Outcome.mismatched missing all) h =
    (λ f. absurd (cc f), λ out f. absurd (cc f))

module _ (md4 sha1 : Bytes → Bytes) (num_threads : ℕ) (on_disk : Bytes) {W R : Type 0}
    (call : W → Bytes → ℕ → ℕ → W × Answer R) (read_inner : R → ℕ → R × Option Bytes)
    (retries total : ℕ) where
  scan_inputs-IsReady :
      (inputs : List (Option Bytes)) (s : ZsyncAssembly)
      → IsReady total s
      → IsReady total (scan_inputs md4 sha1 num_threads on_disk call read_inner retries inputs s)
  unfolding scan_inputs
  scan_inputs-IsReady [] s k = k
  scan_inputs-IsReady (none ∷ inputs) s k = scan_inputs-IsReady inputs s k
  scan_inputs-IsReady (some content ∷ inputs) s k =
      let (n, counted, _) =
        submit_source_file-IsScanned md4 num_threads on_disk total s.matcher.known_count never
          content s k in
      let scanned = (submit_source_file md4 num_threads on_disk never content s).0 in
      scan_inputs-IsReady inputs scanned
        (IsCounted-IsReady total s.matcher.known_count n scanned counted)

  scan_self-IsReady :
      (s : ZsyncAssembly)
      → IsReady total s
      → IsReady total (scan_self md4 sha1 num_threads on_disk call read_inner retries s)
  unfolding scan_self
  scan_self-IsReady s k =
      elim (Bool-cases (ltb 0 (block_stats s).0 && not (is_complete s.matcher))) [
        | inr pointless ↦ rw pointless k
        | inl useful ↦
            let (n, counted, _) =
              submit_self_referential-IsScanned md4 num_threads on_disk total s.matcher.known_count
                never s k in
            rw useful (
              IsCounted-IsReady total s.matcher.known_count n
                (submit_self_referential md4 num_threads on_disk never s).0 counted)
      ]

  todo-le : (s : ZsyncAssembly) → IsReady total s → blocks_todo s.matcher ≤ total
  unfolding blocks_todo total_blocks
  todo-le s k = omega (arith, k.0.known_length, k.4)

-- From a valid matcher whose block size is that of the control file and at least one, with more
-- than `total_blocks * (retries + 2) + retries` rounds, whatever the seed files hold and however
-- the network and the reads behave: the program comes to an end, and if it ends with the target in
-- its place, every block is known and the output is finished, with the length of the control file
-- and the digest that it may name.
pub main_finished :
    (md4 sha1 : Bytes → Bytes) (num_threads : ℕ) (on_disk : Bytes) {W R : Type 0}
    (call : W → Bytes → ℕ → ℕ → W × Answer R) (read_inner : R → ℕ → R × Option Bytes)
    (retries rounds : ℕ) (inputs : List (Option Bytes)) (w : W) (s : ZsyncAssembly)
    → IsValid s.matcher
    → s.matcher.blocksize ≡ s.control.blocksize
    → 1 ≤ s.control.blocksize
    → total_blocks s.matcher * (retries + 2) + retries < rounds
    → let (w', s', exit) =
        main md4 sha1 num_threads on_disk call read_inner retries rounds inputs w s in
      IsGoodExit sha1 on_disk s' exit
unfolding main
main_finished md4 sha1 num_threads on_disk call read_inner retries rounds inputs w s valid fits size
      enough =
    exit_of-IsGoodExit sha1 on_disk
      (download md4 on_disk call read_inner (λ w. (w, false)) retries rounds w seeded)
      (download_ends md4 on_disk call read_inner (λ w. (w, false)) retries rounds w seeded ready.0
        ready.1 ready.2 (omega (arith, enough, scaled))).0
  where
    total : ℕ
    total = total_blocks s.matcher

    seeded : ZsyncAssembly
    seeded =
        scan_self md4 sha1 num_threads on_disk call read_inner retries
          (scan_inputs md4 sha1 num_threads on_disk call read_inner retries inputs s)

    ready : IsReady total seeded
    ready = scan_self-IsReady md4 sha1 num_threads on_disk call read_inner retries total _ (
        scan_inputs-IsReady md4 sha1 num_threads on_disk call read_inner retries total inputs s
          (valid, fits, size, omega arith, refl))

    times : (a b r : ℕ) → a ≤ b → a * r ≤ b * r
    times a b r h = grind arith

    scaled : blocks_todo seeded.matcher * (retries + 2) ≤ total * (retries + 2)
    scaled =
        times (blocks_todo seeded.matcher) total (retries + 2)
          (todo-le md4 sha1 num_threads on_disk call read_inner retries total seeded ready)
