-- ===== src/Prelude/Or.antt =====
-- `bit_or` keeps the bits of both numbers.
use Prim.Native.Nat.{
  ℕ, zero, suc, ◌+◌, ◌*◌, ◌/◌, ◌%◌, ◌≤◌, min, max, bit_and, bit_or, digits, bit_or-bitwise,
}
use mathlib.Core.Path.{◌≡◌, refl, ap, ◌∙◌, sym}
use native.Mathlib.Omega.{arith}
use zsync_rs.Prelude.Bits.{bit_and-halves}

-- The digits of `a` and `b`, with `n` of them looked at: enough from `a` on.
abbrev join : ℕ → ℕ → ℕ → ℕ
join n a b = digits (λ b. b) max n a b

join-enough : (n m a b : ℕ) → a ≤ n → a ≤ m → join n a b ≡ join m a b
join-enough zero zero a b p q = refl
join-enough zero (suc m) zero b p q = refl
join-enough zero (suc m) (suc a) b p q = absurd (omega arith)
join-enough (suc n) zero zero b p q = refl
join-enough (suc n) zero (suc a) b p q = absurd (omega arith)
join-enough (suc n) (suc m) zero b p q = refl
join-enough (suc n) (suc m) (suc a) b p q =
    let rest = join-enough n m (suc a / 2) (b / 2) (omega arith) (omega arith) in
    ap (λ t. t * 2 + max (suc a % 2) (b % 2)) rest

-- The lowest digit apart from the others.
bit_or-halves : (a b : ℕ) → bit_or a b ≡ bit_or (a / 2) (b / 2) * 2 + max (a % 2) (b % 2)
bit_or-halves zero b = omega (arith, bit_or-bitwise 0 b, bit_or-bitwise 0 (b / 2))
bit_or-halves (suc a) b =
    bit_or-bitwise (suc a) b
    ∙ ap (λ t. t * 2 + max (suc a % 2) (b % 2))
        (join-enough a (suc a / 2) (suc a / 2) (b / 2) (omega arith) (omega arith)
          ∙ sym (bit_or-bitwise (suc a / 2) (b / 2)))

bit_or-div : (a b : ℕ) → bit_or a b / 2 ≡ bit_or (a / 2) (b / 2)
bit_or-div a b = omega (arith, bit_or-halves a b)

bit_or-mod : (a b : ℕ) → bit_or a b % 2 ≡ max (a % 2) (b % 2)
bit_or-mod a b = omega (arith, bit_or-halves a b)

both-le :
    (n a b c : ℕ)
    → a ≤ n
    → b ≤ n
    → (bit_and a c ≤ bit_and (bit_or a b) c) × (bit_and b c ≤ bit_and (bit_or a b) c)
both-le zero a b c p q =
    let a_zero : a ≡ 0 = omega arith in
    let b_zero : b ≡ 0 = omega arith in rw (a_zero, b_zero) (omega arith, omega arith)
both-le (suc n) a b c p q =
    let (l, r) = both-le n (a / 2) (b / 2) (c / 2) (omega arith) (omega arith) in
    let split =
      bit_and-halves (bit_or a b) c
      ∙ ap (λ t. bit_and t (c / 2) * 2 + min (bit_or a b % 2) (c % 2)) (bit_or-div a b) in
    (
      omega (arith, l, split, bit_or-mod a b, bit_and-halves a c),
      omega (arith, r, split, bit_or-mod a b, bit_and-halves b c),
    )

-- Under any mask, each of the two numbers has at most what both have together.
pub bit_or-left : (a b c : ℕ) → bit_and a c ≤ bit_and (bit_or a b) c
bit_or-left a b c = (both-le (a + b) a b c (omega arith) (omega arith)).0

pub bit_or-right : (a b c : ℕ) → bit_and b c ≤ bit_and (bit_or a b) c
bit_or-right a b c = (both-le (a + b) a b c (omega arith) (omega arith)).1

bit_and-same_le : (n a : ℕ) → a ≤ n → bit_and a a ≡ a
bit_and-same_le zero a h = let e : a ≡ 0 = omega arith in rw e refl
bit_and-same_le (suc n) a h =
    omega (arith, bit_and-halves a a, bit_and-same_le n (a / 2) (omega arith))

pub bit_and-same : (a : ℕ) → bit_and a a ≡ a
bit_and-same a = bit_and-same_le a a (omega arith)
