-- ===== src/Rsum/Roll.antt =====
-- The two sums of src/rsum.rs in closed form, and the update in place against a fresh computation.
use zsync_rs.Prelude.{
  ℕ, zero, suc, ◌+◌, ◌-◌, ◌*◌, ◌%◌, ◌^◌, ◌≤◌, ◌<◌, ◌≡◌, refl, ◌∙◌, ap, sym, arith,
}
use zsync_rs.Prelude.{List, [], ◌∷◌, ◌++◌, length, length-append, Bool-cases, ltb, inl, inr}
use native.Mathlib.Nat.{pow-suc, mul_comm}
use zsync_rs.Rsum.{rsum_loop, calc_rsum_block, shifted_out, roll}

-- The plain sum of the bytes.
pub sum : List ℕ → ℕ
sum [] = 0
sum (x ∷ xs) = x + sum xs

-- Each byte counted once for every byte from it to the end of the block.
pub weighted : List ℕ → ℕ
weighted [] = 0
weighted (x ∷ xs) = suc (length xs) * x + weighted xs

abbrev pub IsByte : ℕ → Type 0
IsByte x = x < 256

rsum_loop_closed :
    (xs : List ℕ) (a b : ℕ)
    → rsum_loop (a % 2 ^ 16) (b % 2 ^ 16) xs
      ≡ record { a = (a + sum xs) % 2 ^ 16; b = (b + length xs * a + weighted xs) % 2 ^ 16 }
unfolding rsum_loop sum weighted
rsum_loop_closed [] a b = ground arith
rsum_loop_closed (x ∷ xs) a b = ground (arith, rsum_loop_closed xs (a + x) (b + (a + x)))

-- The checksum of a block in closed form: the sum of its bytes, and the sum in which each byte
-- counts once for every byte from it to the end, both modulo 2^16.
pub calc_rsum_block_closed :
    (xs : List ℕ)
    → ((calc_rsum_block xs).a ≡ sum xs % 2 ^ 16) × ((calc_rsum_block xs).b ≡ weighted xs % 2 ^ 16)
unfolding calc_rsum_block
calc_rsum_block_closed xs = ground (arith, rsum_loop_closed xs 0 0)

sum-append : (xs : List ℕ) (y : ℕ) → sum (xs ++ (y ∷ [])) ≡ sum xs + y
unfolding sum
sum-append [] y = omega arith
sum-append (x ∷ xs) y = omega (arith, sum-append xs y)

weighted-append : (xs : List ℕ) (y : ℕ) → weighted (xs ++ (y ∷ [])) ≡ weighted xs + sum xs + y
unfolding weighted sum
weighted-append [] y = omega arith
weighted-append (x ∷ xs) y =
    omega (arith, weighted-append xs y, ap (λ t. t * x) (length-append xs (y ∷ [])))

-- A shift by 16 or more leaves nothing of a 16-bit word.
pow_split : (k : ℕ) → 2 ^ (16 + k) ≡ 65536 * 2 ^ k
pow_split zero = refl
pow_split (suc k) =
    let e : 16 + suc k ≡ suc (16 + k) = omega arith in
    rw e (omega (arith, pow-suc 2 (16 + k), pow_split k, pow-suc 2 k))

mul_multiple : (x p q : ℕ) → p ≡ 65536 * q → x * p % 65536 ≡ 0
mul_multiple x p q e = rw e (omega arith)

shifted_out_lem : (x k : ℕ) → shifted_out x k ≡ x * 2 ^ k % 65536
unfolding shifted_out
shifted_out_lem x k = elim (Bool-cases (ltb k 16)) [
  | inl small ↦ rw small
  | inr big ↦ rw big (sym (mul_multiple x (2 ^ k) (2 ^ (k - 16)) (shift (ground arith))))
]
  where
    shift : 16 ≤ k → 2 ^ k ≡ 65536 * 2 ^ (k - 16)
    shift h = let e : k ≡ 16 + (k - 16) = omega arith in ap (λ t. 2 ^ t) e ∙ pow_split (k - 16)

-- On a block of `2 ^ k` values whose first is a byte, sliding the window by one leaves the checksum
-- that `calc_rsum_block` computes from scratch for the new window, at every `k`: also where the
-- shift by `k` passes the width of the sums.
pub roll-calc_rsum_block :
    (k oc nc : ℕ) (w : List ℕ)
    → suc (length w) ≡ 2 ^ k
    → oc < 256
    → roll k (calc_rsum_block (oc ∷ w)) oc nc ≡ calc_rsum_block (w ++ (nc ∷ []))
unfolding roll sum weighted
roll-calc_rsum_block k oc nc w h small =
    let e : suc (length w) * oc ≡ oc * 2 ^ k = ap (λ t. t * oc) h ∙ mul_comm _ _ in
    ground (
      arith,
      e,
      calc_rsum_block_closed (oc ∷ w),
      calc_rsum_block_closed (w ++ (nc ∷ [])),
      sum-append w nc,
      weighted-append w nc,
      shifted_out_lem oc k,
    )
