-- ===== src/Control/Decimal.antt =====
-- Numbers in decimal: `str::parse` of an unsigned type, and `{}` of one.
pub mod Trip
use zsync_rs.Prelude.{
  ℕ, zero, suc, ◌+◌, ◌-◌, ◌*◌, ◌/◌, ◌%◌, ◌&&◌, [], ◌∷◌, leb, ltb, ◌==◌, if◌then◌else◌, Option, none,
  some,
}
use zsync_rs.Control.{Bytes}

-- The digits after the number read so far; a value above `max` is refused.
scan : ℕ → Bytes → ℕ → Option ℕ
scan max [] n = some n
scan max (c ∷ cs) n =
    let next = n * 10 + (c - b'0') in
    let rest = scan max cs next in if leb b'0' c && leb c b'9' && leb next max then rest else none

-- `from_str_radix`: a sign stands in front of a digit at least.
signed : ℕ → Bytes → Option ℕ
signed max [] = none
signed max (c ∷ cs) = scan max (c ∷ cs) 0

-- `value.parse()` for an unsigned type whose largest value is `max`.
unfoldable pub parse_uint : ℕ → Bytes → Option ℕ
unfolding scan signed
parse_uint max [] = none
parse_uint max (c ∷ cs) = if c == b'+' then signed max cs else scan max (c ∷ cs) 0

-- The digits of a number in front of `out`. A round divides it by ten, so it bounds the rounds.
digits : ℕ → ℕ → Bytes → Bytes
digits zero n out = (b'0' + n % 10) ∷ out
digits (suc rounds) n out =
    let rest = digits rounds (n / 10) ((b'0' + n % 10) ∷ out) in
    if n / 10 == 0 then (b'0' + n % 10) ∷ out else rest

unfoldable pub print_uint : ℕ → Bytes
unfolding digits
print_uint n = digits n n []
