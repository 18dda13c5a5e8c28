-- ===== src/Cli/Run/Verified.antt =====
-- What a run of the program in src/bin/zsync.rs delivers.
use mathlib.Core.Path.{subst}
use zsync_rs.Prelude.{
  ℕ, ◌+◌, ◌-◌, ◌*◌, ◌^◌, ◌≤◌, ◌<◌, ◌≡◌, ◌≢◌, refl, ap, ◌∙◌, arith, [], length, min, Option, some,
}
use zsync_rs.Control.{Bytes, ControlFile}
use zsync_rs.Control.Header
use zsync_rs.Control.Header.{parse, max_blocks}
use zsync_rs.Control.Hex.{hex_encode}
use zsync_rs.Matcher.{is_block_known, total_blocks}
use zsync_rs.Matcher.New
use zsync_rs.Http.Client.{Answer}
use zsync_rs.Http.Fetch.{Reply, new_client}
use zsync_rs.Assembly.{ZsyncAssembly, opened, with_client}
use zsync_rs.Assembly.Urls.{extract_base_url}
use zsync_rs.Assembly.Store.{IsBlank, stored}
use zsync_rs.Assembly.Store.Download.{starts}
use zsync_rs.Assembly.Store.Output.{AreBlocks, IsAssembled}
use zsync_rs.Assembly.Complete.{Completion, set_len}
use zsync_rs.Assembly.Complete.Valid.{HasDigest, IsFinished}
use zsync_rs.Assembly.Start.{Result, from_url, set_range_gap_threshold}
use zsync_rs.Assembly.Start.Ready.{IsFresh, from_url_with_client-IsFresh}
use zsync_rs.Cli.Retry.{Outcome}
use zsync_rs.Cli.Main.{Exit, main}
use zsync_rs.Cli.Main.Finished.{IsGoodExit, main_finished}
use zsync_rs.Cli.Main.Verified.{main-IsHeld}
use zsync_rs.Cli.Run.{Cli, Ending, exit_code, output_path, run_assembly, run}

-- The output is the target that a control file describes: of its length, with its digest if it has
-- one, and with blocks that have the digests of the file.
pub record IsTarget (md4 sha1 : Bytes → Bytes) (control : ControlFile) (out : Bytes) : Type 0 where
  pub whole : length out ≡ control.file_length
  pub digest : HasDigest control.sha1 (hex_encode (sha1 out))
  pub assembled : IsAssembled md4 (New.new control) control.file_length out

-- The program did not run out of rounds; and where it exits with 0, it has put the target of a control
-- file in its place that the server sent, and that parses.
unfoldable pub IsGoodEnding : (Bytes → Bytes) → (Bytes → Bytes) → Reply → Ending → Type 0
IsGoodEnding md4 sha1 reply ending =
    ((s : ZsyncAssembly) → ending ≢ Ending.ran s (Exit.stopped Outcome.out_of_rounds))
    × (exit_code ending ≡ 0
        → (s : ZsyncAssembly) × (out : Bytes) × (ending
            ≡ Ending.ran s (Exit.completed (Completion.ok out)))
          × (bytes : Bytes) × (control : ControlFile) × (reply ≡ Reply.body bytes)
          × (parse bytes ≡ Header.Result.ok control)
          × IsTarget md4 sha1 control out
          × (out ≡ set_len s.control.file_length (opened [] s.file)))

exit_code_zero :
    (ending : Ending)
    → exit_code ending ≡ 0
    → (s : ZsyncAssembly) × (out : Bytes) × (ending
        ≡ Ending.ran s (Exit.completed (Completion.ok out)))
unfolding exit_code
exit_code_zero (Ending.not_initialized e) h = absurd (omega (arith, h))
exit_code_zero (Ending.ran s (Exit.stopped o)) h = absurd (omega (arith, h))
exit_code_zero (Ending.ran s (Exit.completed (Completion.err e))) h = absurd (omega (arith, h))
exit_code_zero (Ending.ran s (Exit.completed (Completion.ok out))) h = (s, out, refl)

times : (a b r : ℕ) → a ≤ b → a * r ≤ b * r
times a b r h = grind arith

gap-IsFresh :
    (gap : ℕ) (control : ControlFile) (s : ZsyncAssembly)
    → IsFresh control s
    → IsFresh control (set_range_gap_threshold gap s)
unfolding set_range_gap_threshold
gap-IsFresh gap control s f = record {
  described = f.described;
  parsed = f.parsed;
  valid = f.valid;
  fits = f.fits;
  positive = f.positive;
  pairs = f.pairs;
  blocks = f.blocks;
  few_blocks = f.few_blocks;
  nothing_known = f.nothing_known;
  unopened = f.unopened;
}

module _ (md4 sha1 : Bytes → Bytes) (num_threads : ℕ) {W R : Type 0} (get : W → Bytes → W × Reply)
    (call : W → Bytes → ℕ → ℕ → W × Answer R) (read_inner : R → ℕ → R × Option Bytes) (rounds : ℕ)
    (cli : Cli) (enough : max_blocks * (cli.retries + 2) + cli.retries < rounds) where
  -- A new assembly holds nothing, on an empty disk.
  module _ (control : ControlFile) (w : W) (s : ZsyncAssembly) (f : IsFresh control s) where
    blank :
        IsBlank
          (is_block_known s.matcher)
          (total_blocks s.matcher)
          (opened [] s.file)
          s.control.blocksize
    blank id inside unknown i below = rw (f.unopened) refl

    sound : AreBlocks md4 s.matcher (stored [] s)
    sound id block e = cc (rw (f.nothing_known id) at e)

    begun_enough : total_blocks s.matcher * (cli.retries + 2) + cli.retries < rounds
    begun_enough =
        omega
          (arith, enough, times (total_blocks s.matcher) max_blocks (cli.retries + 2) f.few_blocks)

    main_delivers :
        (reply : Reply) (bytes : Bytes)
        → reply ≡ Reply.body bytes
        → parse bytes ≡ Header.Result.ok control
        → s.matcher ≡ New.new control
        → let (w', s', exit) =
            main md4 sha1 num_threads [] call read_inner cli.retries rounds cli.input w s in
          IsGoodEnding md4 sha1 reply (Ending.ran s' exit)
    unfolding IsGoodEnding IsFinished
    main_delivers reply bytes sent parses indexed = (
      λ s' e. absurd (good.0 (cc e)),
      λ zero_exit.
          let (s', out, e) = exit_code_zero (Ending.ran ended.1 ended.2) zero_exit in
          let state : s' ≡ ended.1 = cc e in
          let done : ended.2 ≡ Exit.completed (Completion.ok out) = cc e in
          let (assembled, kept, finished) =
            main-IsHeld md4 sha1 num_threads [] call read_inner cli.retries s.control s.matcher
              f.pairs (stored [] s) (total_blocks s.matcher) rounds cli.input w s sound
              ((f.valid, f.fits, f.positive, omega arith, refl), starts md4 [] s f.fits blank) out
              done in
          let same : ended.1.control ≡ control = kept ∙ f.described in
          (
            s',
            out,
            e,
            bytes,
            control,
            sent,
            parses,
            record {
              whole = finished.2 ∙ ap (λ c. c.file_length) same;
              digest = subst (λ c. HasDigest c.sha1 (hex_encode (sha1 out))) same finished.3;
              assembled =
                  subst (λ c. IsAssembled md4 (New.new control) c.file_length out) f.described
                    (subst (λ t. IsAssembled md4 t s.control.file_length out) indexed assembled);
            },
            rw state finished.1,
          ),
    )
      where
        ended : W × ZsyncAssembly × Exit
        ended = main md4 sha1 num_threads [] call read_inner cli.retries rounds cli.input w s

        good : IsGoodExit sha1 [] ended.1 ended.2
        good =
            main_finished md4 sha1 num_threads [] call read_inner cli.retries rounds cli.input w s
              f.valid f.fits f.positive begun_enough

  run_assembly-IsGoodEnding :
      (w : W) (reply : Reply) (begun : Result ZsyncAssembly)
      → ((s : ZsyncAssembly)
          → begun ≡ Result.ok s
          → (bytes : Bytes) × (control : ControlFile) × (reply ≡ Reply.body bytes)
            × (parse bytes ≡ Header.Result.ok control)
            × (s
                ≡ with_client control
                    (output_path cli)
                    (some (extract_base_url cli.url))
                    new_client)
            × IsFresh control s)
      → IsGoodEnding md4 sha1 reply
          (run_assembly md4 sha1 num_threads [] get call read_inner rounds cli w begun).1
  unfolding run_assembly set_range_gap_threshold with_client
  run_assembly-IsGoodEnding w reply (Result.err e) h =
      unfold IsGoodEnding in
      (
        λ s f. cc f,
        λ zero_exit. absurd (cc (exit_code_zero (Ending.not_initialized e) zero_exit).2),
      )
  run_assembly-IsGoodEnding w reply (Result.ok s) h =
      let (bytes, control, sent, parses, same, fresh) = h s refl in
      main_delivers control w (set_range_gap_threshold gap s) (gap-IsFresh gap control s fresh)
        reply bytes sent parses (new_matcher s control same)
    where
      gap : ℕ
      gap = min (cli.range_gap * 1024) (2 ^ 64 - 1)

      new_matcher :
          (s : ZsyncAssembly) (control : ControlFile)
          → s ≡ with_client control (output_path cli) (some (extract_base_url cli.url)) new_client
          → s.matcher ≡ New.new control
      new_matcher s control e = ap (λ t. t.matcher) e

-- With more than 2^26 * (retries + 2) + retries rounds, and no temporary file left over from
-- another run: whatever the server, the network, the seed files and the digests do, the program
-- comes to an end; and where it exits with 0, the server sent a control file that parses, and the
-- file in place, which is the temporary file at the length of the target, has its length, its
-- digest if it has one, and in every block of the target the bytes of a block with the digest that
-- the control file gives.
pub run-IsGoodEnding :
    (md4 sha1 : Bytes → Bytes) (num_threads : ℕ) {W R : Type 0} (get : W → Bytes → W × Reply)
    (call : W → Bytes → ℕ → ℕ → W × Answer R) (read_inner : R → ℕ → R × Option Bytes) (rounds : ℕ)
    (cli : Cli) (w : W)
    → max_blocks * (cli.retries + 2) + cli.retries < rounds
    → IsGoodEnding md4 sha1
        (get w cli.url).1
        (run md4 sha1 num_threads [] get call read_inner rounds cli w).1
unfolding run from_url
run-IsGoodEnding md4 sha1 num_threads get call read_inner rounds cli w enough =
    run_assembly-IsGoodEnding md4 sha1 num_threads get call read_inner rounds cli enough
      (from_url get cli.url (output_path cli) w).0 (get w cli.url).1
      (from_url get cli.url (output_path cli) w).1
      (from_url_with_client-IsFresh get cli.url (output_path cli) new_client w)
