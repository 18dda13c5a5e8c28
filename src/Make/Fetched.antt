-- ===== src/Make/Fetched.antt =====
-- The two programs together: what src/bin/zsyncmake.rs writes, and src/bin/zsync.rs fetches.
use mathlib.Core.Path.{subst}
use zsync_rs.Prelude.{
  ℕ, ◌+◌, ◌*◌, ◌^◌, ◌≤◌, ◌<◌, ◌≡◌, sym, ap, ◌∙◌, [], All, length, map, Option, some,
}
use zsync_rs.Control.{Bytes, ControlFile}
use zsync_rs.Control.Hex.{hex_encode}
use zsync_rs.Control.Text.Lines.{IsText}
use zsync_rs.Control.Generate.{Logarithms, Generated, generate, control_of}
use zsync_rs.Control.Generate.Blocks.{generate-control_of}
use zsync_rs.Control.Records.Trip.{kept}
use zsync_rs.Control.Header
use zsync_rs.Control.Header.{max_header_bytes, max_blocks, parse}
use zsync_rs.Control.Write.{fields, write_lines, write}
use zsync_rs.Control.Write.Generated.{parse-write-generate}
use zsync_rs.Http.Client.{Answer}
use zsync_rs.Http.Fetch.{Reply}
use zsync_rs.Assembly.{ZsyncAssembly}
use zsync_rs.Assembly.Complete.{Completion, to_ascii_lowercase}
use zsync_rs.Assembly.Complete.Valid.{HasDigest}
use zsync_rs.Assembly.Complete.Hex.{lower-hex_encode, hex_encode_injective}
use zsync_rs.Cli.Main.{Exit}
use zsync_rs.Cli.Run
use zsync_rs.Cli.Run.{run}
use zsync_rs.Cli.Run.Verified.{IsTarget, IsGoodEnding, run-IsGoodEnding}
use zsync_rs.Make.{System, Cli, Ending, exit_code, filename_of, url_of, main}
use zsync_rs.Make.Written.{main-IsWritten}

-- What `generate` and `write` need for a control file that `parse` reads back.
pub record IsReadable (input filename url : Bytes) (control : ControlFile) : Type 0 where
  pub name_text : IsText filename
  pub url_text : IsText url
  pub input_fits : length input < 2 ^ 64
  pub blocks_fit : length control.block_checksums ≤ max_blocks
  pub header_fits : length (write_lines (fields control)) < max_header_bytes

module _ (md4 sha1 : Bytes → Bytes) (logs : Logarithms)
    (md4_size : (bytes : Bytes) → length (md4 bytes) ≡ 16)
    (sha1_size : (bytes : Bytes) → length (sha1 bytes) ≡ 20)
    (sha1_bytes : (bytes : Bytes) → All (λ b. b < 256) (sha1 bytes)) where
  -- A target of a control file that was generated from an input.
  target-input :
      (input filename url : Bytes) (requested : Option ℕ) (control parsed : ControlFile)
      (out : Bytes)
      → generate md4 sha1 logs input filename url requested ≡ Generated.ok control
      → parsed ≡ record control {
        block_checksums = map (kept control.hash_lengths) control.block_checksums;
      }
      → IsTarget md4 sha1 parsed out
      → (length out ≡ length input) × (sha1 out ≡ sha1 input)
  unfolding control_of HasDigest
  target-input input filename url requested control parsed out made e target =
      let (blocksize, _, power, block_fits, shape) =
        generate-control_of md4 sha1 logs input filename url requested control made in
      let size : parsed.file_length ≡ length input =
        ap (λ c. c.file_length) e ∙ ap (λ c. c.file_length) shape in
      let digest : parsed.sha1 ≡ some (hex_encode (sha1 input)) =
        ap (λ c. c.sha1) e ∙ ap (λ c. c.sha1) shape in
      let same : map to_ascii_lowercase (hex_encode (sha1 out))
          ≡ map to_ascii_lowercase (hex_encode (sha1 input)) =
        subst (λ d. HasDigest d (hex_encode (sha1 out))) digest target.digest in
      (
        target.whole ∙ size,
        hex_encode_injective (sha1 out) (sha1 input) (sha1_bytes out) (sha1_bytes input) (
            sym (lower-hex_encode (sha1 out) (sha1_bytes out))
            ∙ same
            ∙ lower-hex_encode (sha1 input) (sha1_bytes input)),
      )

  -- What the first program writes is read back with other records at most.
  reads_back :
      (sys : System) (make : Cli) (input : Bytes) (control : ControlFile) (path bytes : Bytes)
      → sys.open_input make.file ≡ some input
      → generate md4 sha1 logs input (filename_of sys make) (url_of sys make) make.blocksize
        ≡ Generated.ok control
      → IsReadable input (filename_of sys make) (url_of sys make) control
      → main sys md4 sha1 logs make ≡ Ending.wrote path bytes
      → parse bytes
        ≡ Header.Result.ok (record control {
          block_checksums = map (kept control.hash_lengths) control.block_checksums;
        })
  unfolding exit_code
  reads_back sys make input control path bytes read made r wrote =
      let (input', control', wrote', written) =
        main-IsWritten sys md4 sha1 logs make (ap exit_code wrote) in
      let same_input : input' ≡ input = cc (read, written.read) in
      let same_control : control' ≡ control =
        ok_injective (sym (rw same_input at written.generated) ∙ made) in
      let same_bytes : bytes ≡ write control = cc (wrote, wrote', same_control) in
      ap parse same_bytes
      ∙ parse-write-generate md4 sha1 logs md4_size sha1_size sha1_bytes input
          (filename_of sys make) (url_of sys make) make.blocksize control made r.name_text
          r.url_text r.input_fits r.blocks_fit r.header_fits
    where
      ok_injective : {c c' : ControlFile} → Generated.ok c ≡ Generated.ok c' → c ≡ c'
      ok_injective q = cc q

  -- The two programs together. If MD4 gives 16 bytes and SHA-1 gives 20: where `zsyncmake` writes a
  -- control file for an input, with a file name and a URL that are single UTF-8 lines with nothing to
  -- trim, a length below 2^64, at most 2^26 blocks and a header below the cap, and a server answers the URL of a run of `zsync` with that very file: then a run
  -- with more than 2^26 * (retries + 2) + retries rounds, no temporary file left over, that exits with
  -- 0 has put a file in place with the length and the SHA-1 of the input, whatever the server sends
  -- for the ranges.
  pub run-main :
      (sys : System) (make : Cli) (input : Bytes) (control : ControlFile) (path bytes : Bytes)
      → sys.open_input make.file ≡ some input
      → generate md4 sha1 logs input (filename_of sys make) (url_of sys make) make.blocksize
        ≡ Generated.ok control
      → IsReadable input (filename_of sys make) (url_of sys make) control
      → main sys md4 sha1 logs make ≡ Ending.wrote path bytes
      → (num_threads : ℕ) {W R : Type 0} (get : W → Bytes → W × Reply)
        (call : W → Bytes → ℕ → ℕ → W × Answer R) (read_inner : R → ℕ → R × Option Bytes)
        (rounds : ℕ) (cli : Run.Cli) (w : W)
      → max_blocks * (cli.retries + 2) + cli.retries < rounds
      → (get w cli.url).1 ≡ Reply.body bytes
      → Run.exit_code (run md4 sha1 num_threads [] get call read_inner rounds cli w).1 ≡ 0
      → (s : ZsyncAssembly) × (out : Bytes) × ((run md4 sha1 num_threads [] get call read_inner
            rounds cli w).1
          ≡ Run.Ending.ran s (Exit.completed (Completion.ok out)))
        × (length out ≡ length input)
        × (sha1 out ≡ sha1 input)
  unfolding IsGoodEnding
  run-main sys make input control path bytes read made r wrote num_threads get call read_inner
        rounds cli w enough sent zero_exit =
      let (s, out, ending, bytes', parsed, sent', parses, target, _) =
        (run-IsGoodEnding md4 sha1 num_threads get call read_inner rounds cli w enough).1
          zero_exit in
      let same_bytes : bytes' ≡ bytes = body_injective (sym sent' ∙ sent) in
      let shape = control_injective (
        sym (rw same_bytes at parses)
        ∙ reads_back sys make input control path bytes read made r wrote) in
      let (size, digest) =
        target-input input (filename_of sys make) (url_of sys make) make.blocksize control parsed
          out made shape target in
      (s, out, ending, size, digest)
    where
      body_injective : {b b' : Bytes} → Reply.body b ≡ Reply.body b' → b ≡ b'
      body_injective q = cc q

      control_injective : {c c' : ControlFile} → Header.Result.ok c ≡ Header.Result.ok c' → c ≡ c'
      control_injective q = cc q
