-- ===== src/Cli/Json/Read.antt =====
-- A reader of JSON strings gets back what `json_escape` of src/bin/zsync.rs was given.
use zsync_rs.Prelude.{
  ℕ, ◌+◌, ◌-◌, ◌*◌, ◌/◌, ◌%◌, ◌≡◌, ◌<◌, refl, ap, arith, inl, inr, false, ◌&&◌, ◌||◌, [], ◌∷◌, ◌++◌,
  ltb, ltb→lt, leb, ◌==◌, if◌then◌else◌, Bool-cases, Option, none, some,
}
use zsync_rs.Control.Hex.{hex_digit}
use zsync_rs.Cli.Json.{Text, escape_char, json_escape}

-- Where a reader stands: between characters, behind a backslash, or in the digits of `\uXXXX`, with
-- those left and the value so far.
pub data Reading : Type 0 where
  plain escaped : Reading
  hex : ℕ → ℕ → Reading

hex_value : ℕ → Option ℕ
hex_value c =
    if leb b'0' c && leb c b'9'
    then some (c - b'0')
    else if leb b'a' c && leb c b'f'
    then some (c - b'a' + 10)
    else if leb b'A' c && leb c b'F'
    then some (c - b'A' + 10)
    else none

-- One character of the inside of a string, by the grammar of RFC 8259.
read_char : Reading → ℕ → Option (Reading × Text)
unfolding hex_value
read_char Reading.plain c =
    if c == b'\\'
    then some (Reading.escaped, [])
    else if c == b'"' || ltb c 0x20
    then none
    else some (Reading.plain, c ∷ [])
read_char Reading.escaped c =
    if c == b'"' || c == b'\\' || c == b'/'
    then some (Reading.plain, c ∷ [])
    else if c == b'b'
    then some (Reading.plain, 8 ∷ [])
    else if c == b'f'
    then some (Reading.plain, 12 ∷ [])
    else if c == b'n'
    then some (Reading.plain, b'\n' ∷ [])
    else if c == b'r'
    then some (Reading.plain, b'\r' ∷ [])
    else if c == b't'
    then some (Reading.plain, b'\t' ∷ [])
    else if c == b'u'
    then some (Reading.hex 4 0, [])
    else none
read_char (Reading.hex left value) c = elim (hex_value c) [
  | none ↦ none
  | some digit ↦
      let next = value * 16 + digit in
      if left == 1 then some (Reading.plain, next ∷ []) else some (Reading.hex (left - 1) next, [])
]

read_from : Reading → Text → Option (Reading × Text)
unfolding read_char
read_from state [] = some (state, [])
read_from state (c ∷ cs) = elim (read_char state c) [
  | none ↦ none
  | some (state', out) ↦ elim (read_from state' cs) [
    | none ↦ none
    | some (state'', rest) ↦ some (state'', out ++ rest)
  ]
]

-- The text of a whole string, or `none` if it is no string.
unfoldable pub unescape : Text → Option Text
unfolding read_from
unescape body = elim (read_from Reading.plain body) [
  | some (Reading.plain, text) ↦ some text
  | _ ↦ none
]

hex_value-hex_digit : (d : ℕ) → d < 16 → hex_value (hex_digit d) ≡ some d
unfolding hex_value hex_digit
hex_value-hex_digit d h = ground arith

-- `then` of the text behind a character.
module _ (rest out : Text) (h : read_from Reading.plain rest ≡ some (Reading.plain, out)) where
  read_plain :
      (c : ℕ)
      → (c == b'\\') ≡ false
      → (c == b'"') ≡ false
      → ltb c 0x20 ≡ false
      → read_from Reading.plain (c ∷ rest) ≡ some (Reading.plain, c ∷ out)
  unfolding read_from read_char
  read_plain c slash quote low = rw (slash, quote, low, h, read_from) refl

  read_hex :
      (c : ℕ)
      → c < 0x20
      → read_from Reading.plain
          (b'\\' ∷ b'u' ∷ b'0' ∷ b'0' ∷ hex_digit (c / 16) ∷ hex_digit (c % 16) ∷ rest)
        ≡ some (Reading.plain, c ∷ out)
  unfolding read_from read_char
  read_hex c low =
      let value : (0 * 16 + c / 16) * 16 + c % 16 ≡ c = omega arith in
      rw
        (
          hex_value-hex_digit (c / 16) (omega arith),
          read_from,
          hex_value-hex_digit (c % 16) (omega arith),
          read_from,
          h,
        )
        (ap (λ n. some (Reading.plain, n ∷ out)) value)

  read_from-escape_char :
      (c : ℕ) → read_from Reading.plain (escape_char c ++ rest) ≡ some (Reading.plain, c ∷ out)
  unfolding read_from read_char escape_char
  read_from-escape_char c = elim (Bool-cases (c == b'"')) [
    | inl e ↦ let here : c ≡ b'"' = ground arith in rw (e, h, here) refl
    | inr quote ↦ elim (Bool-cases (c == b'\\')) [
      | inl e ↦ let here : c ≡ b'\\' = ground arith in rw (quote, e, h, here) refl
      | inr slash ↦ elim (Bool-cases (c == b'\n')) [
        | inl e ↦ let here : c ≡ b'\n' = ground arith in rw (quote, slash, e, h, here) refl
        | inr newline ↦ elim (Bool-cases (c == b'\r')) [
          | inl e ↦
              let here : c ≡ b'\r' = ground arith in rw (quote, slash, newline, e, h, here) refl
          | inr return ↦ elim (Bool-cases (c == b'\t')) [
            | inl e ↦
                let here : c ≡ b'\t' = ground arith in
                rw (quote, slash, newline, return, e, h, here) refl
            | inr tab ↦ elim (Bool-cases (ltb c 0x20)) [
              | inl low ↦
                  rw (quote, slash, newline, return, tab, low) (read_hex c (ltb→lt c 0x20 low))
              | inr high ↦
                  rw (quote, slash, newline, return, tab, high) (read_plain c slash quote high)
            ]
          ]
        ]
      ]
    ]
  ]

read_from-json_escape :
    (text : Text) → read_from Reading.plain (json_escape text) ≡ some (Reading.plain, text)
unfolding json_escape read_from
read_from-json_escape [] = refl
read_from-json_escape (c ∷ text) =
    read_from-escape_char (json_escape text) text (read_from-json_escape text) c

-- A reader of JSON strings, by the grammar of RFC 8259, accepts what `json_escape` makes of any
-- text as the inside of a string, and gets that text back.
pub unescape-json_escape : (text : Text) → unescape (json_escape text) ≡ some text
unfolding unescape
unescape-json_escape text = rw (read_from-json_escape text, unescape) refl
