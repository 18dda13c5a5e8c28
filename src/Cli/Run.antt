-- ===== src/Cli/Run.antt =====
-- `main` of src/bin/zsync.rs, from the arguments on. The parsing of the arguments is clap's, and what
-- is printed is left out. `on_disk` is what stands at the temporary path at the start.
pub mod Verified
pub mod Disk
use zsync_rs.Prelude.{ℕ, ◌-◌, ◌*◌, ◌^◌, min, List, Option, none, some}
use zsync_rs.Control.{Bytes}
use zsync_rs.Http.Client.{Answer}
use zsync_rs.Http.Fetch.{Reply}
use zsync_rs.Assembly.{ZsyncAssembly, AssemblyError}
use zsync_rs.Assembly.Complete.{Completion}
use zsync_rs.Assembly.Start.{Result, from_url, set_range_gap_threshold}
use zsync_rs.Cli.Output.{default_output}
use zsync_rs.Cli.Main.{Exit, main}

-- The arguments; each input is the content of its file, or `none` if it cannot be read. The flag
-- `json` only selects what is printed.
pub record Cli : Type 0 where
  pub url : Bytes
  pub output : Option Bytes
  pub input : List (Option Bytes)
  pub range_gap : ℕ
  pub retries : ℕ

unfoldable pub output_path : Cli → Bytes
output_path cli = elim cli.output [ none ↦ default_output cli.url | some path ↦ path ]

-- Where the program ends.
pub data Ending : Type 0 where
  not_initialized : AssemblyError → Ending
  ran : ZsyncAssembly → Exit → Ending

-- `process::exit(1)` on every error, and 0 at the end of `main`.
unfoldable pub exit_code : Ending → ℕ
exit_code (Ending.ran s (Exit.completed (Completion.ok out))) = 0
exit_code (Ending.ran s (Exit.completed (Completion.err e))) = 1
exit_code (Ending.ran s (Exit.stopped outcome)) = 1
exit_code (Ending.not_initialized e) = 1

module _ (md4 sha1 : Bytes → Bytes) (num_threads : ℕ) (on_disk : Bytes) {W R : Type 0}
    (get : W → Bytes → W × Reply) (call : W → Bytes → ℕ → ℕ → W × Answer R)
    (read_inner : R → ℕ → R × Option Bytes) where
  -- After the control file has arrived, or not.
  run_assembly : ℕ → Cli → W → Result ZsyncAssembly → W × Ending
  run_assembly rounds cli w (Result.err e) = (w, Ending.not_initialized e)
  run_assembly rounds cli w (Result.ok s) =
      let gap = min (cli.range_gap * 1024) (2 ^ 64 - 1) in
      let (w', s', exit) =
        main md4 sha1 num_threads on_disk call read_inner cli.retries rounds cli.input w
          (set_range_gap_threshold gap s) in
      (w', Ending.ran s' exit)

  unfoldable pub run : ℕ → Cli → W → W × Ending
  unfolding output_path run_assembly
  run rounds cli w =
      let (w', begun) = from_url get cli.url (output_path cli) w in run_assembly rounds cli w' begun
