-- ===== src/Control/Header/Loop.antt =====
-- The rounds of the header loop of `parse` in src/control.rs.
use mathlib.Core.List.{append_assoc}
use zsync_rs.Prelude.{
  ℕ, zero, suc, ◌-◌, ◌≤◌, ◌<◌, ◌≡◌, refl, sym, ap, ◌∙◌, arith, inl, inr, not, [], ◌∷◌, ◌++◌, length,
  ◌==◌, Bool-cases, length-append,
}
use zsync_rs.Control.{Bytes, ParseError}
use zsync_rs.Control.Text.{is_utf8, read_line, trim_end}
use zsync_rs.Control.Header.{ok, err, ◌>>=◌, Header, max_header_bytes, apply_line, header_loop}
use zsync_rs.Control.Header.Lines.{bind_cong}
use zsync_rs.Control.Header.Sound.{
  ResultHolds, holds_ok, holds_err, holds_bind, IsSound, apply_line-holds,
}

read_line_parts :
    (limit : ℕ) (reader : Bytes)
    → (reader ≡ (read_line limit reader).0 ++ (read_line limit reader).1)
      × (length (read_line limit reader).0 ≤ limit)
unfolding read_line
read_line_parts zero reader = (refl, omega arith)
read_line_parts (suc limit) [] = (refl, omega arith)
read_line_parts (suc limit) (c ∷ cs) = elim (Bool-cases (c == b'\n')) [
  | inl newline ↦ rw newline (refl, omega arith)
  | inr other ↦
      let (e, k) = read_line_parts limit cs in rw other (ap (λ t. c ∷ t) e, omega (arith, k))
]

-- What a round does: it refuses, it ends at a blank line, or it takes a line in.
data Round (limit : ℕ) (reader : Bytes) (h : Header) : Type 0 where
  refused :
      (e : ParseError)
      → ((rounds : ℕ) → header_loop (suc rounds) limit reader h ≡ err e)
      → Round limit reader h
  ended :
      ((rounds : ℕ) → header_loop (suc rounds) limit reader h ≡ ok (h, (read_line limit reader).1))
      → Round limit reader h
  taken :
      1 ≤ length (read_line limit reader).0
      → ((rounds : ℕ)
          → header_loop (suc rounds) limit reader h ≡ (
              apply_line (trim_end (read_line limit reader).0) h >>= λ h'.
              header_loop rounds
                (limit - length (read_line limit reader).0)
                (read_line limit reader).1
                h'))
      → Round limit reader h

round : (limit : ℕ) (reader : Bytes) (h : Header) → Round limit reader h
unfolding header_loop
round limit reader h = elim (Bool-cases (not (is_utf8 (read_line limit reader).0))) [
  | inl bad ↦ refused ParseError.io (λ rounds. rw bad refl)
  | inr good ↦ elim (Bool-cases (length (read_line limit reader).0 == 0)) [
    | inl empty ↦ elim (Bool-cases (limit == 0)) [
      | inl cut ↦
          refused (ParseError.header_too_large max_header_bytes)
            (λ rounds. rw (good, empty, cut) refl)
      | inr over ↦ refused ParseError.unexpected_eof (λ rounds. rw (good, empty, over) refl)
    ]
    | inr some_bytes ↦ elim (Bool-cases (length (trim_end (read_line limit reader).0) == 0)) [
      | inl blank ↦ ended (λ rounds. rw (good, some_bytes, blank) refl)
      | inr some_text ↦ taken (ground arith) (λ rounds. rw (good, some_bytes, some_text) refl)
    ]
  ]
]

pub header_loop-holds :
    (rounds limit : ℕ) (reader : Bytes) (h : Header)
    → IsSound h
    → ResultHolds (λ p. IsSound p.0) (header_loop rounds limit reader h)
header_loop-holds zero limit reader h s = unfold header_loop in holds_err
header_loop-holds (suc rounds) limit reader h s = elim (round limit reader h) [
  | refused e r ↦ rw (r rounds) holds_err
  | ended r ↦ rw (r rounds) (holds_ok {a = (h, (read_line limit reader).1)} s)
  | taken some_bytes r ↦ rw (r rounds) (
      holds_bind (apply_line-holds (trim_end (read_line limit reader).0) h s)
        (λ h' s'. header_loop-holds rounds _ _ h' s'))
]

-- With more rounds than the limit has bytes, the number of rounds of the header loop does not
-- matter.
pub header_loop_enough :
    (rounds rounds' limit : ℕ) (reader : Bytes) (h : Header)
    → limit < rounds
    → limit < rounds'
    → header_loop rounds limit reader h ≡ header_loop rounds' limit reader h
header_loop_enough zero rounds' limit reader h k k' = absurd (omega arith)
header_loop_enough (suc rounds) zero limit reader h k k' = absurd (omega arith)
header_loop_enough (suc rounds) (suc rounds') limit reader h k k' = elim (round limit reader h) [
  | refused e r ↦ r rounds ∙ sym (r rounds')
  | ended r ↦ r rounds ∙ sym (r rounds')
  | taken some_bytes r ↦
      r rounds
      ∙ bind_cong (apply_line (trim_end (read_line limit reader).0) h) _ _ (λ h'.
        header_loop_enough rounds rounds' _ _ h' (omega (arith, (read_line_parts limit reader).1))
          (omega (arith, (read_line_parts limit reader).1)))
      ∙ sym (r rounds')
]

-- The bytes in front of `rest` that are at most `limit`.
abbrev pub IsCut : ℕ → Bytes → Bytes → Type 0
IsCut limit reader rest = (header : Bytes) × (reader ≡ header ++ rest) × (length header ≤ limit)

IsCut-line :
    (limit : ℕ) (reader rest : Bytes)
    → IsCut (limit - length (read_line limit reader).0) (read_line limit reader).1 rest
    → IsCut limit reader rest
IsCut-line limit reader rest (header, e, k) =
    let line : Bytes = (read_line limit reader).0 in
    let (parts, fits) = read_line_parts limit reader in
    (
      line ++ header,
      parts ∙ ap (λ t. line ++ t) e ∙ sym (append_assoc line header rest),
      omega (arith, k, fits, length-append line header),
    )

-- What the loop leaves comes after at most `limit` bytes of what it was given.
pub header_loop-IsCut :
    (rounds limit : ℕ) (reader : Bytes) (h : Header)
    → ResultHolds (λ p. IsCut limit reader p.1) (header_loop rounds limit reader h)
header_loop-IsCut zero limit reader h = unfold header_loop in holds_err
header_loop-IsCut (suc rounds) limit reader h = elim (round limit reader h) [
  | refused e r ↦ rw (r rounds) holds_err
  | ended r ↦
      let (parts, fits) = read_line_parts limit reader in
      rw (r rounds)
        (holds_ok {a = (h, (read_line limit reader).1)} ((read_line limit reader).0, parts, fits))
  | taken some_bytes r ↦ rw (r rounds) (
      holds_bind (record { value_holds = λ _ _. tt })
        (λ h' _. record {
          value_holds = λ p e.
              IsCut-line limit reader p.1 ((header_loop-IsCut rounds _ _ h').value_holds p e);
        }))
]
