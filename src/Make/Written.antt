-- ===== src/Make/Written.antt =====
-- What `main` of src/bin/zsyncmake.rs has written when it exits with 0.
use zsync_rs.Prelude.{
  ◌≡◌, ◌⊎◌, refl, sym, arith, inl, inr, true, [], ◌++◌, codes, Option, none, some, Bool-cases,
  Option-cases,
}
use zsync_rs.Control.{Bytes, ControlFile}
use zsync_rs.Control.Generate.{Logarithms, Generated, generate}
use zsync_rs.Control.Write.{write}
use zsync_rs.Make.{
  System, Cli, Ending, exit_code, unwrap_or, filename_of, url_of, output_of, save, main,
}

-- A value that is given, or else a default.
abbrev pub IsOr : Option Bytes → Bytes → Bytes → Type 0
IsOr given default value = (given ≡ some value) ⊎ ((given ≡ none) × (value ≡ default))

unwrap_or-IsOr :
    (given : Option Bytes) (default : Bytes) → IsOr given default (unwrap_or given default)
unfolding unwrap_or
unwrap_or-IsOr none default = inr (refl, refl)
unwrap_or-IsOr (some value) default = inl refl

IsOr-unwrap_or :
    (given : Option Bytes) (default value : Bytes)
    → IsOr given default value
    → unwrap_or given default ≡ value
unfolding unwrap_or
IsOr-unwrap_or given default value (inl e) = rw e refl
IsOr-unwrap_or given default value (inr (e, same_value)) = rw (e) (sym same_value)

module _ (sys : System) where
  save_zero :
      (path : Bytes) (g : Generated)
      → exit_code (save sys path g) ≡ 0
      → (control : ControlFile) × (g ≡ Generated.ok control)
        × (save sys path g ≡ Ending.wrote path (write control))
        × (sys.created path ≡ true)
        × (sys.writes path (write control) ≡ true)
  unfolding save exit_code
  save_zero path Generated.empty_file h = absurd (omega (arith, h))
  save_zero path Generated.invalid_blocksize h = absurd (omega (arith, h))
  save_zero path (Generated.ok control) h = elim (Bool-cases (sys.created path)) [
    | inr no_file ↦ let h' : 1 ≡ 0 = rw no_file at h in absurd (omega (arith, h'))
    | inl made ↦ elim (Bool-cases (sys.writes path (write control))) [
      | inr lost ↦ let h' : 1 ≡ 0 = rw (made, lost) at h in absurd (omega (arith, h'))
      | inl kept ↦ (control, refl, rw (made, kept) refl, made, kept)
    ]
  ]

  zero_save :
      (path : Bytes) (control : ControlFile)
      → sys.created path ≡ true
      → sys.writes path (write control) ≡ true
      → exit_code (save sys path (Generated.ok control)) ≡ 0
  unfolding save exit_code
  zero_save path control made kept = rw (made, kept) refl

  -- What makes the program succeed. The name is the last component of the path, or empty; the URL is
  -- the name where none is given, and the output path is the name with ".zsync" where none is given.
  pub record IsWritten (md4 sha1 : Bytes → Bytes) (logs : Logarithms) (cli : Cli)
      (input name url path : Bytes) (control : ControlFile) : Type 0 where
    pub read : sys.open_input cli.file ≡ some input
    pub named : IsOr (sys.file_name cli.file) [] name
    pub located : IsOr cli.url name url
    pub placed : IsOr cli.output (name ++ codes ".zsync") path
    pub generated : generate md4 sha1 logs input name url cli.blocksize ≡ Generated.ok control
    pub created : sys.created path ≡ true
    pub whole : sys.writes path (write control) ≡ true

  names-IsOr :
      (cli : Cli)
      → IsOr (sys.file_name cli.file) [] (filename_of sys cli)
        × IsOr cli.url (filename_of sys cli) (url_of sys cli)
        × IsOr cli.output (filename_of sys cli ++ codes ".zsync") (output_of sys cli)
  unfolding filename_of url_of output_of
  names-IsOr cli = (
    unwrap_or-IsOr (sys.file_name cli.file) [],
    unwrap_or-IsOr cli.url _,
    unwrap_or-IsOr cli.output _,
  )

  pub main-IsWritten :
      (md4 sha1 : Bytes → Bytes) (logs : Logarithms) (cli : Cli)
      → exit_code (main sys md4 sha1 logs cli) ≡ 0
      → (input : Bytes) × (control : ControlFile) × (main sys md4 sha1 logs cli
          ≡ Ending.wrote (output_of sys cli) (write control))
        × IsWritten md4 sha1 logs cli input
            (filename_of sys cli)
            (url_of sys cli)
            (output_of sys cli)
            control
  unfolding main exit_code
  main-IsWritten md4 sha1 logs cli h = elim (Option-cases (sys.open_input cli.file)) [
    | inl unread ↦ let h' : 1 ≡ 0 = rw (unread, main) at h in absurd (omega (arith, h'))
    | inr (input, read) ↦
        let (control, made, saved, created, whole) =
          save_zero (output_of sys cli)
            (generate md4 sha1 logs input (filename_of sys cli) (url_of sys cli) cli.blocksize)
            (rw (read, main) at h) in
        let (named, located, placed) = names-IsOr cli in
        (
          input,
          control,
          rw (read, main) saved,
          record {
            read = read;
            named = named;
            located = located;
            placed = placed;
            generated = made;
            created = created;
            whole = whole;
          },
        )
  ]

  IsWritten-main :
      (md4 sha1 : Bytes → Bytes) (logs : Logarithms) (cli : Cli) (input name url path : Bytes)
      (control : ControlFile)
      → IsWritten md4 sha1 logs cli input name url path control
      → main sys md4 sha1 logs cli ≡ Ending.wrote path (write control)
  unfolding main save
  IsWritten-main md4 sha1 logs cli input name url path control w =
      rw
        (
          w.read,
          main,
          IsOr-unwrap_or (sys.file_name cli.file) [] name w.named,
          IsOr-unwrap_or cli.url name url w.located,
          IsOr-unwrap_or cli.output (name ++ codes ".zsync") path w.placed,
          w.generated,
          w.created,
          w.whole,
        )
        refl
