-- ===== src/Assembly/Complete/Hex.antt =====
-- Digests in hexadecimal, as `complete` of src/assembly.rs compares them.
use zsync_rs.Prelude.{ℕ, ◌/◌, ◌%◌, ◌<◌, ◌≡◌, refl, ap₂, arith, [], ◌∷◌, All, map}
use zsync_rs.Control.{Bytes}
use zsync_rs.Control.Hex.{hex_digit, hex_encode}
use zsync_rs.Assembly.Complete.{to_ascii_lowercase}

-- The digits are in lower case.
lower-hex_digit : (d : ℕ) → d < 16 → to_ascii_lowercase (hex_digit d) ≡ hex_digit d
unfolding to_ascii_lowercase hex_digit
lower-hex_digit d h = ground arith

pub lower-hex_encode :
    (bytes : Bytes)
    → All (λ b. b < 256) bytes
    → map to_ascii_lowercase (hex_encode bytes) ≡ hex_encode bytes
unfolding hex_encode
lower-hex_encode [] h = refl
lower-hex_encode (b ∷ bytes) h =
    ap₂ ◌∷◌ (lower-hex_digit (b / 16) (omega arith))
      (ap₂ ◌∷◌ (lower-hex_digit (b % 16) (omega arith)) (lower-hex_encode bytes h.1))

hex_digit_injective : (a b : ℕ) → a < 16 → b < 16 → hex_digit a ≡ hex_digit b → a ≡ b
unfolding hex_digit
hex_digit_injective a b ha hb h = ground arith

byte_of_digits : (a b : ℕ) → a / 16 ≡ b / 16 → a % 16 ≡ b % 16 → a ≡ b
byte_of_digits a b h k = omega arith

-- Different digests are written differently.
pub hex_encode_injective :
    (xs ys : Bytes)
    → All (λ b. b < 256) xs
    → All (λ b. b < 256) ys
    → hex_encode xs ≡ hex_encode ys
    → xs ≡ ys
unfolding hex_encode
hex_encode_injective [] [] hx hy e = refl
hex_encode_injective [] (y ∷ ys) hx hy e = cc e
hex_encode_injective (x ∷ xs) [] hx hy e = cc e
hex_encode_injective (x ∷ xs) (y ∷ ys) hx hy e =
    let high : hex_digit (x / 16) ≡ hex_digit (y / 16) = cc e in
    let low : hex_digit (x % 16) ≡ hex_digit (y % 16) = cc e in
    let rest : hex_encode xs ≡ hex_encode ys = cc e in
    ap₂ ◌∷◌
      (byte_of_digits x y (hex_digit_injective (x / 16) (y / 16) (omega arith) (omega arith) high)
        (hex_digit_injective (x % 16) (y % 16) (omega arith) (omega arith) low))
      (hex_encode_injective xs ys hx.1 hy.1 rest)
