-- ===== src/Control/Write/Trip/Fields.antt =====
-- The header lines that `write` of src/control.rs prints, as the header loop takes them in.
use mathlib.Core.List.{append_assoc, append-nil}
use zsync_rs.Prelude.{
  ◌+◌, ◌-◌, ◌/◌, ◌^◌, ◌≤◌, ◌<◌, ◌≡◌, refl, sym, ap, ◌∙◌, arith, true, List, [], ◌∷◌, ◌++◌, map,
  length, codes, All, All-append, Option, none, some, OptionHolds,
}
use zsync_rs.Control.{Bytes, ControlFile, max_blocksize}
use zsync_rs.Control.Text.Lines.{IsText, IsKeyByte}
use zsync_rs.Control.Decimal.{print_uint}
use zsync_rs.Control.Decimal.Trip.{parse_uint-print_uint}
use zsync_rs.Control.Generate.{is_power_of_two}
use zsync_rs.Control.Records.Trip.{IsAccepted, IsBlock}
use zsync_rs.Control.Header.{
  ok, ◌>>=◌, Header, no_header, max_header_bytes, max_blocks, apply_field,
}
use zsync_rs.Control.Header.Lines.{IsLine, apply_fields, bind_assoc, bind_cong}
use zsync_rs.Control.Write.{optional, print_lengths, fields, write_lines}
use zsync_rs.Control.Write.Trip.Values.{
  print_uint-IsText, print_lengths-IsText, parse_lengths-print_lengths, parse_blocksize-print_uint,
}

-- What `parse` asks of a control file, and of the text in it.
pub record IsWritable (c : ControlFile) : Type 0 where
  pub version_text : IsText c.version
  pub filename_text : OptionHolds IsText c.filename
  pub mtime_text : OptionHolds IsText c.mtime
  pub url_texts : All IsText c.urls
  pub sha1_text : OptionHolds (λ v. IsText v × (length v ≡ 40)) c.sha1
  pub power : is_power_of_two 64 c.blocksize ≡ true
  pub block_fits : c.blocksize ≤ max_blocksize
  pub length_fits : c.file_length ≤ 2 ^ 64 - 1
  pub accepted : IsAccepted c.hash_lengths
  pub blocks : All IsBlock c.block_checksums
  pub counted : (c.file_length + (c.blocksize - 1)) / c.blocksize ≡ length c.block_checksums
  pub blocks_fit : length c.block_checksums ≤ max_blocks
  pub header_fits : length (write_lines (fields c)) < max_header_bytes

-- What the header loop has read at the end.
abbrev pub header_of : ControlFile → Header
header_of c = record {
  version = c.version;
  filename = c.filename;
  mtime = c.mtime;
  blocksize = some c.blocksize;
  file_length = some c.file_length;
  hash_lengths = c.hash_lengths;
  urls = c.urls;
  sha1 = c.sha1;
}

apply_fields-append :
    (xs ys : List (Bytes × Bytes)) (h : Header)
    → apply_fields (xs ++ ys) h ≡ (apply_fields xs h >>= apply_fields ys)
unfolding apply_fields
apply_fields-append [] ys h = refl
apply_fields-append ((key, value) ∷ xs) ys h =
    bind_cong (apply_field key value h) _ _ (λ h'. apply_fields-append xs ys h')
    ∙ sym (bind_assoc (apply_field key value h) (apply_fields xs) (apply_fields ys))

apply_then :
    (xs ys : List (Bytes × Bytes)) (h h' : Header)
    → apply_fields xs h ≡ ok h'
    → apply_fields (xs ++ ys) h ≡ apply_fields ys h'
apply_then xs ys h h' e = apply_fields-append xs ys h ∙ ap (λ r. r >>= apply_fields ys) e

-- Each line sets its variable.
apply_filename :
    (filename : Option Bytes) (h : Header)
    → h.filename ≡ none
    → apply_fields (optional (codes "Filename") filename) h ≡ ok (record h { filename = filename })
unfolding apply_fields optional apply_field
apply_filename none h e = ap (λ f. ok (record h { filename = f })) e
apply_filename (some v) h e = refl

apply_mtime :
    (mtime : Option Bytes) (h : Header)
    → h.mtime ≡ none
    → apply_fields (optional (codes "MTime") mtime) h ≡ ok (record h { mtime = mtime })
unfolding apply_fields optional apply_field
apply_mtime none h e = ap (λ f. ok (record h { mtime = f })) e
apply_mtime (some v) h e = refl

apply_sha1 :
    (sha1 : Option Bytes) (h : Header)
    → OptionHolds (λ v. IsText v × (length v ≡ 40)) sha1
    → h.sha1 ≡ none
    → apply_fields (optional (codes "SHA-1") sha1) h ≡ ok (record h { sha1 = sha1 })
unfolding apply_fields optional apply_field
apply_sha1 none h ok_sha1 e = ap (λ f. ok (record h { sha1 = f })) e
apply_sha1 (some v) h ok_sha1 e = rw ok_sha1.1 refl

apply_urls :
    (urls : List Bytes) (h : Header)
    → apply_fields (map (λ url. (codes "URL", url)) urls) h
      ≡ ok (record h { urls = h.urls ++ urls })
unfolding apply_fields apply_field
apply_urls [] h = ap (λ f. ok (record h { urls = f })) (sym (append-nil h.urls))
apply_urls (url ∷ urls) h =
    apply_urls urls (record h { urls = h.urls ++ (url ∷ []) })
    ∙ ap (λ f. ok (record h { urls = f })) (append_assoc h.urls (url ∷ []) urls)

module _ (c : ControlFile) (w : IsWritable c) where
  abbrev size_fields : List (Bytes × Bytes)
  size_fields =
      (codes "Blocksize", print_uint c.blocksize)
      ∷ (codes "Length", print_uint c.file_length)
      ∷ (codes "Hash-Lengths", print_lengths c.hash_lengths)
      ∷ []

  apply_sizes :
      (h : Header)
      → apply_fields size_fields h
        ≡ ok (record h {
          blocksize = some c.blocksize;
          file_length = some c.file_length;
          hash_lengths = c.hash_lengths;
        })
  unfolding apply_fields apply_field
  apply_sizes h =
      rw
        (
          parse_blocksize-print_uint c.blocksize w.power w.block_fits,
          parse_uint-print_uint (2 ^ 64 - 1) c.file_length w.length_fits,
          parse_lengths-print_lengths c.hash_lengths w.accepted,
        )
        refl

  pub apply_fields-fields : apply_fields (fields c) no_header ≡ ok (header_of c)
  unfolding fields apply_fields apply_field
  apply_fields-fields =
      let h1 : Header = record no_header { version = c.version } in
      let h2 : Header = record h1 { filename = c.filename } in
      let h3 : Header = record h2 { mtime = c.mtime } in
      let h4 : Header = record h3 {
        blocksize = some c.blocksize;
        file_length = some c.file_length;
        hash_lengths = c.hash_lengths;
      } in
      let h5 : Header = record h4 { urls = c.urls } in
      apply_then (optional (codes "Filename") c.filename) _ h1 h2
        (apply_filename c.filename h1 refl)
      ∙ apply_then (optional (codes "MTime") c.mtime) _ h2 h3 (apply_mtime c.mtime h2 refl)
      ∙ apply_then size_fields
          (map (λ url. (codes "URL", url)) c.urls ++ optional (codes "SHA-1") c.sha1) h3 h4
          (apply_sizes h3)
      ∙ apply_then (map (λ url. (codes "URL", url)) c.urls) (optional (codes "SHA-1") c.sha1) h4 h5
          (apply_urls c.urls h4)
      ∙ apply_sha1 c.sha1 h5 w.sha1_text refl

  optional-IsLine :
      (key : Bytes) (value : Option Bytes)
      → (1 ≤ length key) × All IsKeyByte key
      → OptionHolds IsText value
      → All IsLine (optional key value)
  unfolding optional
  optional-IsLine key none k h = tt
  optional-IsLine key (some v) k h = ((k.0, k.1, h), tt)

  sha1-IsText :
      (sha1 : Option Bytes)
      → OptionHolds (λ v. IsText v × (length v ≡ 40)) sha1
      → OptionHolds IsText sha1
  sha1-IsText none h = tt
  sha1-IsText (some v) h = h.0

  urls-IsLine :
      (urls : List Bytes) → All IsText urls → All IsLine (map (λ url. (codes "URL", url)) urls)
  urls-IsLine [] h = tt
  urls-IsLine (url ∷ urls) h = ((omega arith, omega arith, h.0), urls-IsLine urls h.1)

  pub fields-IsLine : All IsLine (fields c)
  unfolding fields
  fields-IsLine = (
    (omega arith, omega arith, w.version_text),
    All-append IsLine (optional (codes "Filename") c.filename) _
        (optional-IsLine _ c.filename (omega arith, omega arith) w.filename_text)
        (All-append IsLine (optional (codes "MTime") c.mtime) _
          (optional-IsLine _ c.mtime (omega arith, omega arith) w.mtime_text)
          (
            (omega arith, omega arith, print_uint-IsText c.blocksize),
            (
              (omega arith, omega arith, print_uint-IsText c.file_length),
              (
                (omega arith, omega arith, print_lengths-IsText c.hash_lengths),
                All-append IsLine (map (λ url. (codes "URL", url)) c.urls) _
                    (urls-IsLine c.urls w.url_texts)
                    (optional-IsLine _ c.sha1 (omega arith, omega arith)
                      (sha1-IsText c.sha1 w.sha1_text)),
              ),
            ),
          )),
  )
