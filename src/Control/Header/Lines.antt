-- ===== src/Control/Header/Lines.antt =====
-- The header loop of `parse` over lines that are written one by one.
use mathlib.Core.List.{append_assoc}
use zsync_rs.Prelude.{
  ℕ, zero, suc, ◌+◌, ◌-◌, ◌≤◌, ◌<◌, ◌≡◌, ◌≢◌, refl, sym, ap, ◌∙◌, arith, true, false, List, [], ◌∷◌,
  ◌++◌, length, length-append, All, All-append, All-map, ◌==◌,
}
use zsync_rs.Control.{Bytes}
use zsync_rs.Control.Text.{is_utf8, read_line, trim_end}
use zsync_rs.Control.Text.Lines.{
  IsText, IsKeyByte, is_utf8-append, is_utf8_ascii, read_line-append, split_line, split_once-append,
}
use zsync_rs.Control.Write.{write_lines}
use zsync_rs.Control.Header.{Result, ok, err, ◌>>=◌, Header, apply_field, apply_line, header_loop}

-- A line that is read back: its name, with a byte at least, and its value.
abbrev pub IsLine : Bytes × Bytes → Type 0
IsLine (key, value) = (1 ≤ length key) × All IsKeyByte key × IsText value

-- A round on a line that is not blank.
header_loop_step :
    (rounds limit : ℕ) (reader line rest : Bytes) (h : Header)
    → read_line limit reader ≡ (line, rest)
    → is_utf8 line ≡ true
    → (length line == 0) ≡ false
    → (length (trim_end line) == 0) ≡ false
    → header_loop (suc rounds) limit reader h
      ≡ (apply_line (trim_end line) h >>= λ h'. header_loop rounds (limit - length line) rest h')
unfolding header_loop
header_loop_step rounds limit reader line rest h e whole some_bytes some_text =
    rw (e, whole, some_bytes, some_text) refl

module _ (key value : Bytes) (ok_line : IsLine (key, value)) where
  abbrev body : Bytes
  body = key ++ (b':' ∷ b' ' ∷ value)

  body_one_line : All (λ c. c ≢ b'\n') body
  body_one_line =
      All-append _ key (b':' ∷ b' ' ∷ value)
        (All-map IsKeyByte (λ c. c ≢ b'\n') key (λ c h. omega arith) ok_line.1)
        (omega arith, (omega arith, ok_line.2.one_line))

  body-is_utf8 : is_utf8 (body ++ (b'\n' ∷ [])) ≡ true
  body-is_utf8 =
      ap is_utf8 (append_assoc key (b':' ∷ b' ' ∷ value) (b'\n' ∷ []))
      ∙ is_utf8-append key (b':' ∷ b' ' ∷ (value ++ (b'\n' ∷ [])))
          (is_utf8_ascii key (All-map IsKeyByte (λ c. c < 0x80) key (λ c h. h.0) ok_line.1))
      ∙ is_utf8-append (b':' ∷ b' ' ∷ []) (value ++ (b'\n' ∷ [])) (is_utf8_ascii _ (omega arith))
      ∙ is_utf8-append value (b'\n' ∷ []) ok_line.2.whole
      ∙ is_utf8_ascii (b'\n' ∷ []) (omega arith)

  apply_line-body :
      (h : Header) → apply_line (trim_end (body ++ (b'\n' ∷ []))) h ≡ apply_field key value h
  unfolding apply_line
  apply_line-body h =
      let (after, e, e') = split_line key value ok_line.1 ok_line.2 in
      rw (e, split_once-append key after ok_line.1, e') refl

  header_loop-line :
      (rounds limit : ℕ) (rest : Bytes) (h : Header)
      → length (body ++ (b'\n' ∷ [])) ≤ limit
      → header_loop (suc rounds) limit ((body ++ (b'\n' ∷ [])) ++ rest) h ≡ (
          apply_field key value h >>= λ h'.
          header_loop rounds (limit - length (body ++ (b'\n' ∷ []))) rest h')
  unfolding header_loop
  header_loop-line rounds limit rest h fits =
      header_loop_step rounds limit _ (body ++ (b'\n' ∷ [])) rest h taken body-is_utf8
        (ground (arith, length_body)) trimmed
      ∙ ap
          (λ (r : Result Header).
            r >>= λ h'. header_loop rounds (limit - length (body ++ (b'\n' ∷ []))) rest h')
          (apply_line-body h)
    where
      length_body : length (body ++ (b'\n' ∷ [])) ≡ length body + 1
      length_body = length-append body (b'\n' ∷ [])

      taken : read_line limit ((body ++ (b'\n' ∷ [])) ++ rest) ≡ (body ++ (b'\n' ∷ []), rest)
      taken =
          ap (read_line limit) (append_assoc body (b'\n' ∷ []) rest)
          ∙ read_line-append limit body rest body_one_line (omega (arith, fits, length_body))

      trimmed : (length (trim_end (body ++ (b'\n' ∷ []))) == 0) ≡ false
      trimmed =
          let (after, e, e') = split_line key value ok_line.1 ok_line.2 in
          rw e (ground (arith, length-append key (b':' ∷ after)))

-- The lines of a header, one after another.
unfoldable pub apply_fields : List (Bytes × Bytes) → Header → Result Header
apply_fields [] h = ok h
apply_fields ((key, value) ∷ rest) h = apply_field key value h >>= apply_fields rest

pub bind_assoc :
    {A B C : Type 0} (r : Result A) (f : A → Result B) (g : B → Result C)
    → (r >>= f) >>= g ≡ (r >>= λ a. f a >>= g)
bind_assoc (ok a) f g = refl
bind_assoc (err e) f g = refl

pub bind_cong :
    {A B : Type 0} (r : Result A) (f g : A → Result B)
    → ((a : A) → f a ≡ g a)
    → (r >>= f) ≡ (r >>= g)
bind_cong (ok a) f g h = h a
bind_cong (err e) f g h = refl

-- The blank line ends the header.
header_loop_blank :
    (rounds limit : ℕ) (rest : Bytes) (h : Header)
    → 1 ≤ limit
    → header_loop (suc rounds) limit (b'\n' ∷ rest) h ≡ ok (h, rest)
unfolding header_loop is_utf8 trim_end
header_loop_blank rounds limit rest h fits = rw (read_line-append limit [] rest tt fits) refl

-- The loop over lines that fit the limit, up to the blank line behind them.
pub header_loop-write_lines :
    (lines : List (Bytes × Bytes)) (rounds limit : ℕ) (rest : Bytes) (h : Header)
    → All IsLine lines
    → length (write_lines lines) < limit
    → length lines < rounds
    → header_loop rounds limit (write_lines lines ++ (b'\n' ∷ rest)) h
      ≡ (apply_fields lines h >>= λ h'. ok (h', rest))
unfolding write_lines apply_fields
header_loop-write_lines lines zero limit rest h all_lines fits enough = absurd (omega arith)
header_loop-write_lines [] (suc rounds) limit rest h all_lines fits enough =
    header_loop_blank rounds limit rest h (omega arith)
header_loop-write_lines ((key, value) ∷ lines) (suc rounds) limit rest h (line, all_lines) fits
      enough =
    ap (λ r. header_loop (suc rounds) limit r h)
      (append_assoc (body key value line ++ (b'\n' ∷ [])) (write_lines lines) (b'\n' ∷ rest))
    ∙ header_loop-line key value line rounds limit (write_lines lines ++ (b'\n' ∷ rest)) h
        (omega (arith, total))
    ∙ bind_cong (apply_field key value h) _ _ (λ h'.
      header_loop-write_lines lines rounds _ rest h' all_lines (omega (arith, total)) (omega arith))
    ∙ sym (bind_assoc (apply_field key value h) (apply_fields lines) (λ h'. ok (h', rest)))
  where
    total :
        length ((body key value line ++ (b'\n' ∷ [])) ++ write_lines lines)
        ≡ length (body key value line ++ (b'\n' ∷ [])) + length (write_lines lines)
    total = length-append (body key value line ++ (b'\n' ∷ [])) (write_lines lines)
