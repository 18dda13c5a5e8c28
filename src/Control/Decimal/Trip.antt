-- ===== src/Control/Decimal/Trip.antt =====
-- A number that is printed is read back.
use zsync_rs.Prelude.{
  ℕ, zero, suc, ◌+◌, ◌-◌, ◌*◌, ◌/◌, ◌%◌, ◌≤◌, ◌≡◌, ◌≢◌, false, refl, ◌∙◌, arith, inl, inr, [], ◌∷◌,
  ◌==◌, ◌&&◌, leb, All, Bool-cases, some,
}
use mathlib.Core.List.{cons-ne-nil}
use zsync_rs.Control.{Bytes}
use zsync_rs.Control.Decimal.{scan, signed, parse_uint, digits, print_uint}

abbrev pub IsDigit : ℕ → Type 0
IsDigit c = (b'0' ≤ c) × (c ≤ b'9')

-- Reading the last digit of a number after those in front of it gives the number.
scan_last :
    (max n : ℕ) (out : Bytes) → n ≤ max → scan max ((b'0' + n % 10) ∷ out) (n / 10) ≡ scan max out n
unfolding scan
scan_last max n out h = ground arith

scan-digits :
    (max rounds n : ℕ) (out : Bytes)
    → n ≤ max
    → n ≤ rounds
    → scan max (digits rounds n out) 0 ≡ scan max out n
unfolding digits
scan-digits max zero n out h k = let e : n / 10 ≡ 0 = omega arith in rw e at (scan_last max n out h)
scan-digits max (suc rounds) n out h k = elim (Bool-cases (n / 10 == 0)) [
  | inl last ↦ let e : n / 10 ≡ 0 = ground arith in rw (last) (rw e at (scan_last max n out h))
  | inr more ↦ rw more (
      scan-digits max rounds (n / 10) ((b'0' + n % 10) ∷ out) (omega arith) (ground arith)
      ∙ scan_last max n out h)
]

digits-IsDigit : (rounds n : ℕ) (out : Bytes) → All IsDigit out → All IsDigit (digits rounds n out)
unfolding digits
digits-IsDigit zero n out h = ((omega arith, omega arith), h)
digits-IsDigit (suc rounds) n out h = elim (Bool-cases (n / 10 == 0)) [
  | inl last ↦ rw last ((omega arith, omega arith), h)
  | inr more ↦
      rw more
        (digits-IsDigit rounds (n / 10) ((b'0' + n % 10) ∷ out) ((omega arith, omega arith), h))
]

digits-ne-nil : (rounds n : ℕ) (out : Bytes) → digits rounds n out ≢ []
unfolding digits
digits-ne-nil zero n out = cons-ne-nil _ _
digits-ne-nil (suc rounds) n out = elim (Bool-cases (n / 10 == 0)) [
  | inl last ↦ rw last (cons-ne-nil _ _)
  | inr more ↦ rw more (digits-ne-nil rounds (n / 10) ((b'0' + n % 10) ∷ out))
]

parse_uint-scan : (max : ℕ) (s : Bytes) → s ≢ [] → All IsDigit s → parse_uint max s ≡ scan max s 0
unfolding parse_uint
parse_uint-scan max [] h k = absurd (h refl)
parse_uint-scan max (c ∷ s) h k = let e : (c == b'+') ≡ false = ground arith in rw e refl

pub print_uint-IsDigit : (n : ℕ) → All IsDigit (print_uint n)
unfolding print_uint
print_uint-IsDigit n = digits-IsDigit n n [] tt

-- A number up to the largest value of a type is read back from its print as a value of that type.
pub parse_uint-print_uint : (max n : ℕ) → n ≤ max → parse_uint max (print_uint n) ≡ some n
unfolding print_uint
parse_uint-print_uint max n h =
    parse_uint-scan max (digits n n []) (digits-ne-nil n n []) (digits-IsDigit n n [] tt)
    ∙ scan-digits max n n [] h (omega arith)
    ∙ unfold scan in refl

scan_bound : (max n m : ℕ) (s : Bytes) → n ≤ max → scan max s n ≡ some m → m ≤ max
unfolding scan
scan_bound max n m [] h e = let k : n ≡ m = cc e in omega arith
scan_bound max n m (c ∷ s) h e =
    elim (Bool-cases (leb b'0' c && leb c b'9' && leb (n * 10 + (c - b'0')) max)) [
      | inl good ↦ scan_bound max (n * 10 + (c - b'0')) m s (ground arith) (rw good at e)
      | inr bad ↦ absurd (cc (rw bad at e))
    ]

-- A number that is read is at most the largest value of its type.
pub parse_uint_bound : (max m : ℕ) (s : Bytes) → parse_uint max s ≡ some m → m ≤ max
unfolding parse_uint signed
parse_uint_bound max m [] e = absurd (cc e)
parse_uint_bound max m (c ∷ []) e = elim (Bool-cases (c == b'+')) [
  | inl plus ↦ absurd (cc (rw plus at e))
  | inr bare ↦ scan_bound max 0 m (c ∷ []) (omega arith) (rw bare at e)
]
parse_uint_bound max m (c ∷ d ∷ s) e = elim (Bool-cases (c == b'+')) [
  | inl plus ↦ scan_bound max 0 m (d ∷ s) (omega arith) (rw plus at e)
  | inr bare ↦ scan_bound max 0 m (c ∷ d ∷ s) (omega arith) (rw bare at e)
]
