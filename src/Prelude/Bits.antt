-- ===== src/Prelude/Bits.antt =====
-- `bit_and` with a mask of low bits is a remainder, at every width.
use Prim.Native.Nat.{
  ℕ, zero, suc, ◌+◌, ◌-◌, ◌*◌, ◌/◌, ◌%◌, ◌^◌, ◌≤◌, ◌<◌, min, bit_and, digits, bit_and-bitwise,
}
use mathlib.Core.Path.{◌≡◌, refl, ap, ap₂, ◌∙◌, sym}
use native.Mathlib.Nat.{pow-suc, one-le-pow, mod-lt, mod-add-div', div-eq_of_lt-le}
use native.Mathlib.Omega.{arith}

-- The digits of `a`, with `n` of them looked at: enough from `a` on.
abbrev meet : ℕ → ℕ → ℕ → ℕ
meet n a b = digits (λ _. zero) min n a b

meet-enough : (n a b : ℕ) → a ≤ n → meet n a b ≡ meet a a b
meet-enough n a b h = both n a a b h (omega arith)
  where
    both : (n m a b : ℕ) → a ≤ n → a ≤ m → meet n a b ≡ meet m a b
    both zero zero a b p q = refl
    both zero (suc m) zero b p q = refl
    both zero (suc m) (suc a) b p q = absurd (omega arith)
    both (suc n) zero zero b p q = refl
    both (suc n) zero (suc a) b p q = absurd (omega arith)
    both (suc n) (suc m) zero b p q = refl
    both (suc n) (suc m) (suc a) b p q =
        let rest = both n m (suc a / 2) (b / 2) (omega arith) (omega arith) in
        ap (λ t. t * 2 + min (suc a % 2) (b % 2)) rest

-- The lowest digit apart from the others.
pub bit_and-halves : (a b : ℕ) → bit_and a b ≡ bit_and (a / 2) (b / 2) * 2 + min (a % 2) (b % 2)
bit_and-halves zero b = bit_and-bitwise 0 b ∙ sym (omega (arith, bit_and-bitwise 0 (b / 2)))
bit_and-halves (suc a) b =
    bit_and-bitwise (suc a) b
    ∙ ap (λ t. t * 2 + min (suc a % 2) (b % 2))
        (meet-enough a (suc a / 2) (b / 2) (omega arith)
          ∙ sym (bit_and-bitwise (suc a / 2) (b / 2)))

bit_and-none : (n a : ℕ) → a ≤ n → bit_and a 0 ≡ 0
bit_and-none n zero h = refl
bit_and-none zero (suc a) h = absurd (omega arith)
bit_and-none (suc n) (suc a) h =
    omega (arith, bit_and-halves (suc a) 0, bit_and-none n (suc a / 2) (omega arith))

pub bit_and-zero : (a : ℕ) → bit_and a 0 ≡ 0
bit_and-zero a = bit_and-none a a (omega arith)

-- One more low bit in the mask, and in the remainder.
mask_halves : (p : ℕ) → 1 ≤ p → (2 * p - 1) / 2 ≡ p - 1
mask_halves p h = omega arith

mod_halves : (a p : ℕ) → 1 ≤ p → a / 2 % p * 2 + a % 2 ≡ a % (2 * p)
mod_halves a p h = omega (arith, rest, lt, mod-add-div' a (2 * p), ap (λ t. t * (2 * p)) quotient)
  where
    q : ℕ
    q = a / 2 / p

    rest : a / 2 % p + q * p ≡ a / 2
    rest = mod-add-div' (a / 2) p

    lt : a / 2 % p < p
    lt = mod-lt (a / 2) h

    quotient : a / (2 * p) ≡ q
    quotient = div-eq_of_lt-le (2 * p) (omega (arith, rest, lt)) (omega (arith, rest, lt))

pub bit_and-mask : (k a : ℕ) → bit_and a (2 ^ k - 1) ≡ a % 2 ^ k
bit_and-mask zero a = omega (arith, bit_and-zero a)
bit_and-mask (suc k) a =
    ap (bit_and a) (omega (arith, pow-suc 2 k))
    ∙ bit_and-halves a (2 * 2 ^ k - 1)
    ∙ ap₂ (λ m r. m * 2 + r)
        (ap (bit_and (a / 2)) (mask_halves (2 ^ k) some_bit) ∙ bit_and-mask k (a / 2))
        (omega (arith, some_bit))
    ∙ mod_halves a (2 ^ k) some_bit
    ∙ ap (λ t. a % t) (omega (arith, pow-suc 2 k))
  where
    some_bit : 1 ≤ 2 ^ k
    some_bit = one-le-pow k 2 (omega arith)
