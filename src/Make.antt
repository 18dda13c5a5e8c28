-- ===== src/Make.antt =====
-- src/bin/zsyncmake.rs: the command line program that writes the control file of a target. The parsing
-- of the arguments is clap's, and what is printed is left out.
pub mod Written
pub mod Fetched
mod Tests
use zsync_rs.Prelude.{ℕ, Bool, [], ◌++◌, if◌then◌else◌, codes, Option, none, some}
use zsync_rs.Control.{Bytes, HashLengths, ControlFile}
use zsync_rs.Control.Generate.{Logarithms, Generated, generate}
use zsync_rs.Control.Write.{write}

pub record Cli : Type 0 where
  pub file : Bytes
  pub url : Option Bytes
  pub output : Option Bytes
  pub blocksize : Option ℕ

-- Where the program ends. Each error names what failed.
pub data Ending : Type 0 where
  not_opened not_created not_written : Bytes → Ending
  not_generated : Generated → Ending
  wrote : Bytes → Bytes → Ending

-- `process::exit(1)` on every error, and 0 at the end of `main`.
unfoldable pub exit_code : Ending → ℕ
exit_code (Ending.wrote path bytes) = 0
exit_code _ = 1

unfoldable pub unwrap_or : Option Bytes → Bytes → Bytes
unwrap_or none value = value
unwrap_or (some given) value = given

-- What the program takes from the standard library and the system: the file name of a path, what
-- opening and reading a file gives, whether a file can be made at a path, and whether the bytes
-- written to it reach it, up to the flush at the end.
pub record System : Type 0 where
  pub file_name : Bytes → Option Bytes
  pub open_input : Bytes → Option Bytes
  pub created : Bytes → Bool
  pub writes : Bytes → Bytes → Bool

module _ (sys : System) where
  unfoldable pub filename_of : Cli → Bytes
  unfolding unwrap_or
  filename_of cli = unwrap_or (sys.file_name cli.file) []

  unfoldable pub url_of : Cli → Bytes
  unfolding unwrap_or filename_of
  url_of cli = unwrap_or cli.url (filename_of cli)

  unfoldable pub output_of : Cli → Bytes
  unfolding unwrap_or filename_of
  output_of cli = unwrap_or cli.output (filename_of cli ++ codes ".zsync")

  -- What follows the generation.
  save : Bytes → Generated → Ending
  save path (Generated.ok control) =
      if sys.created path
      then (if sys.writes path (write control)
          then Ending.wrote path (write control)
          else Ending.not_written path)
      else Ending.not_created path
  save path refused = Ending.not_generated refused

  unfoldable pub main : (Bytes → Bytes) → (Bytes → Bytes) → Logarithms → Cli → Ending
  unfolding url_of output_of filename_of save
  main md4 sha1 logs cli = elim (sys.open_input cli.file) [
    | none ↦ Ending.not_opened cli.file
    | some input ↦
        save (output_of cli)
          (generate md4 sha1 logs input (filename_of cli) (url_of cli) cli.blocksize)
  ]
