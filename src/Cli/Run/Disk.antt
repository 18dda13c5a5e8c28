-- ===== src/Cli/Run/Disk.antt =====
-- What a run of src/bin/zsync.rs leaves on disk: `complete`, `abort` and `Drop` of src/assembly.rs at
-- the temporary path and the output path. The permissions that `complete` carries over are left out.
use zsync_rs.Prelude.{
  ℕ, ◌+◌, ◌*◌, ◌<◌, ◌≡◌, ◌≢◌, refl, ap, [], Option, none, some, Option-cases, inl, inr,
}
use zsync_rs.Control.{Bytes, ControlFile}
use zsync_rs.Control.Header
use zsync_rs.Control.Header.{parse, max_blocks}
use zsync_rs.Http.Client.{Answer}
use zsync_rs.Http.Fetch.{Reply}
use zsync_rs.Assembly.{ZsyncAssembly, AssemblyError, opened}
use zsync_rs.Assembly.Complete.{Completion, set_len}
use zsync_rs.Cli.Main.{Exit}
use zsync_rs.Cli.Run.{Cli, Ending, exit_code, run}
use zsync_rs.Cli.Run.Verified.{IsTarget, IsGoodEnding, run-IsGoodEnding}

-- What stands at the two paths.
pub record Disk : Type 0 where
  pub temp : Option Bytes
  pub output : Option Bytes

-- The content of the temporary file that a run opens.
abbrev pub left_over : Option Bytes → Bytes
left_over none = []
left_over (some content) = content

-- What the writes of the run have left at the temporary path: nothing new before `ensure_file` has
-- opened the file, and then its content.
unfoldable pub written : ZsyncAssembly → Disk → Disk
written s d = elim s.file [ none ↦ d | some content ↦ record d { temp = some content } ]

-- `Drop`, which removes the temporary file; `abort` does nothing else.
unfoldable pub drop : Disk → Disk
drop d = record d { temp = none }

-- `ensure_file` and `set_len` in `complete`.
unfoldable pub truncate : ZsyncAssembly → Disk → Disk
truncate s d = record d {
  temp = some (set_len s.control.file_length (opened (left_over d.temp) s.file));
}

-- `std::fs::rename` of the temporary file to the output path.
unfoldable pub rename : Disk → Disk
rename d = record { temp = none; output = d.temp }

-- The disk when `complete` returns, which drops the assembly in any case. The file is cut before the
-- digests are compared, and is not touched while blocks are missing.
unfoldable pub settle : Completion → ZsyncAssembly → Disk → Disk
unfolding truncate drop rename written
settle (Completion.ok content) s d = drop (rename (truncate s d))
settle (Completion.err (AssemblyError.missing_blocks missing all)) s d = drop (written s d)
settle (Completion.err e) s d = drop (truncate s d)

-- The disk at the end of the program. Before an assembly is there, nothing is touched; where the
-- program stops before the completion, the assembly is dropped before the exit.
unfoldable pub leave : Ending → Disk → Disk
unfolding settle drop written
leave (Ending.not_initialized e) d = d
leave (Ending.ran s (Exit.stopped outcome)) d = drop (written s d)
leave (Ending.ran s (Exit.completed c)) d = settle c s d

-- What a run leaves at the two paths, from the reply to the request for the control file.
pub record IsClean (md4 sha1 : Bytes → Bytes) (reply : Reply) (d d' : Disk) (code : ℕ)
    : Type 0 where
  pub removed : d'.temp ≡ none
  pub kept : code ≢ 0 → d'.output ≡ d.output
  pub delivered :
      code ≡ 0
      → (bytes : Bytes) × (control : ControlFile) × (out : Bytes) × (reply ≡ Reply.body bytes)
        × (parse bytes ≡ Header.Result.ok control)
        × IsTarget md4 sha1 control out
        × (d'.output ≡ some out)

module _ (md4 sha1 : Bytes → Bytes) (num_threads : ℕ) {W R : Type 0} (get : W → Bytes → W × Reply)
    (call : W → Bytes → ℕ → ℕ → W × Answer R) (read_inner : R → ℕ → R × Option Bytes) where
  unfoldable pub run_on_disk : ℕ → Cli → W → Disk → W × Disk × ℕ
  unfolding leave
  run_on_disk rounds cli w d =
      let (w', ending) =
        run md4 sha1 num_threads (left_over d.temp) get call read_inner rounds cli w in
      (w', leave ending d, exit_code ending)

  leave-temp : (ending : Ending) (d : Disk) → d.temp ≡ none → (leave ending d).temp ≡ none
  unfolding leave settle drop rename
  leave-temp (Ending.not_initialized e) d h = h
  leave-temp (Ending.ran s (Exit.stopped outcome)) d h = refl
  leave-temp (Ending.ran s (Exit.completed (Completion.ok content))) d h = refl
  leave-temp (Ending.ran s (Exit.completed (Completion.err e))) d h =
      elim e as (λ e. (settle (Completion.err e) s d).temp ≡ none) [
        | AssemblyError.missing_blocks missing all ↦ refl
        | other ↦ refl
      ]

  written-output : (s : ZsyncAssembly) (d : Disk) → (written s d).output ≡ d.output
  unfolding written
  written-output s d = elim (Option-cases s.file) [
    | inl unopened ↦ rw (unopened, written) refl
    | inr (content, open_file) ↦ rw (open_file, written) refl
  ]

  leave-output :
      (ending : Ending) (d : Disk) → exit_code ending ≢ 0 → (leave ending d).output ≡ d.output
  unfolding leave settle drop truncate exit_code
  leave-output (Ending.not_initialized e) d h = refl
  leave-output (Ending.ran s (Exit.stopped outcome)) d h = written-output s d
  leave-output (Ending.ran s (Exit.completed (Completion.ok content))) d h = absurd (h refl)
  leave-output (Ending.ran s (Exit.completed (Completion.err e))) d h =
      elim e as (λ e. (settle (Completion.err e) s d).output ≡ d.output) [
        | AssemblyError.missing_blocks missing all ↦ written-output s d
        | other ↦ refl
      ]

  -- The content that `complete` accepts is that of the temporary file it renames.
  leave-completed :
      (ending : Ending) (d : Disk) (s : ZsyncAssembly) (out : Bytes)
      → ending ≡ Ending.ran s (Exit.completed (Completion.ok out))
      → out ≡ set_len s.control.file_length (opened (left_over d.temp) s.file)
      → (leave ending d).output ≡ some out
  unfolding leave settle drop rename truncate
  leave-completed ending d s out e renamed = rw (e, renamed) refl

  ended-IsClean :
      (on_disk : Bytes) (rounds : ℕ) (cli : Cli) (w : W) (d : Disk)
      → max_blocks * (cli.retries + 2) + cli.retries < rounds
      → d.temp ≡ none
      → on_disk ≡ []
      → let (w', ending) = run md4 sha1 num_threads on_disk get call read_inner rounds cli w in
        IsClean md4 sha1 (get w cli.url).1 d (leave ending d) (exit_code ending)
  unfolding IsGoodEnding
  ended-IsClean on_disk rounds cli w d enough free empty = rw (empty) (record {
    removed = leave-temp ending d free;
    kept = λ failed. leave-output ending d failed;
    delivered = λ zero_exit.
        let (s, out, done, bytes, control, sent, parses, target, renamed) =
          (run-IsGoodEnding md4 sha1 num_threads get call read_inner rounds cli w enough).1
            zero_exit in
        (
          bytes,
          control,
          out,
          sent,
          parses,
          target,
          leave-completed ending d s out done (rw free renamed),
        );
  })
    where
      ending : Ending
      ending = (run md4 sha1 num_threads [] get call read_inner rounds cli w).1

  -- With more than 2^26 * (retries + 2) + retries rounds and nothing at the temporary path at the
  -- start: whatever the server, the network and the seed files do, a run that has written a
  -- temporary file leaves none behind, on an error or not; one that exits with an error leaves the
  -- output path as it was; and one that exits with 0 has renamed its temporary file to the output
  -- path, and that file is the target of a control file that the server sent, and that parses.
  pub run_on_disk-IsClean :
      (rounds : ℕ) (cli : Cli) (w : W) (d : Disk)
      → max_blocks * (cli.retries + 2) + cli.retries < rounds
      → d.temp ≡ none
      → let (w', d', code) = run_on_disk rounds cli w d in
        IsClean md4 sha1 (get w cli.url).1 d d' code
  unfolding run_on_disk
  run_on_disk-IsClean rounds cli w d enough free =
      ended-IsClean (left_over d.temp) rounds cli w d enough free (ap left_over free)
