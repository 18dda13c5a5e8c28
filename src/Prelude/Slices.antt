-- ===== src/Prelude/Slices.antt =====
-- A window of a list, moved on by one element.
use Prim.Native.Nat.{ℕ, zero, suc, ◌+◌, ◌-◌, ◌≤◌, ◌<◌}
use mathlib.Core.Path.{◌≡◌, refl, ap, ◌∙◌, sym}
use mathlib.Core.List.{List, [], ◌∷◌, ◌++◌}
use native.Mathlib.Omega.{arith}
use zsync_rs.Prelude.Lists.{length, get_or, take, drop, slice, length-take, length-drop, All}

module _ {ℓ} {A : Type ℓ} where
  pub drop-step :
      (d : A) (x : ℕ) (xs : List A) → x < length xs → drop x xs ≡ get_or xs x d ∷ drop (suc x) xs
  drop-step d x [] h = absurd (omega arith)
  drop-step d zero (y ∷ xs) h = refl
  drop-step d (suc x) (y ∷ xs) h = drop-step d x xs (omega arith)

  pub take-step :
      (d : A) (n : ℕ) (xs : List A)
      → n < length xs
      → take (suc n) xs ≡ take n xs ++ (get_or xs n d ∷ [])
  take-step d n [] h = absurd (omega arith)
  take-step d zero (y ∷ xs) h = refl
  take-step d (suc n) (y ∷ xs) h = ap (λ t. y ∷ t) (take-step d n xs (omega arith))

  pub get_or-drop : (d : A) (x n : ℕ) (xs : List A) → get_or (drop x xs) n d ≡ get_or xs (x + n) d
  get_or-drop d zero n xs = ap (λ k. get_or xs k d) (omega arith)
  get_or-drop d (suc x) n [] = refl
  get_or-drop d (suc x) n (y ∷ xs) =
      let e : suc x + n ≡ suc (x + n) = omega arith in rw e (get_or-drop d x n xs)

  pub length-slice :
      (lo n : ℕ) (xs : List A) → lo + n ≤ length xs → length (slice xs lo (lo + n)) ≡ n
  length-slice lo n xs h = omega (arith, length-take (lo + n - lo) (drop lo xs), length-drop lo xs)

  -- The inner part that two neighbouring windows of `suc n` elements share.
  pub slice-front :
      (d : A) (x n : ℕ) (xs : List A)
      → x + suc n ≤ length xs
      → slice xs x (x + suc n) ≡ get_or xs x d ∷ take n (drop (suc x) xs)
  slice-front d x n xs h =
      let e : x + suc n - x ≡ suc n = omega arith in rw (e, drop-step d x xs (omega arith)) refl

  pub slice-back :
      (d : A) (x n : ℕ) (xs : List A)
      → suc x + suc n ≤ length xs
      → slice xs (x + 1) (x + 1 + suc n)
        ≡ take n (drop (suc x) xs) ++ (get_or xs (x + suc n) d ∷ [])
  slice-back d x n xs h =
      let e : x + 1 + suc n - (x + 1) ≡ suc n = omega arith in
      let e' : x + 1 ≡ suc x = omega arith in
      let e'' : x + suc n ≡ suc x + n = omega arith in
      rw (e, e', e'')
        (take-step d n (drop (suc x) xs) (omega (arith, length-drop (suc x) xs))
          ∙ ap (λ t. take n (drop (suc x) xs) ++ (t ∷ [])) (get_or-drop d (suc x) n xs))

module _ {ℓ} {A : Type ℓ} where
  drop-nil : (n : ℕ) → drop {A = A} n [] ≡ []
  drop-nil zero = refl
  drop-nil (suc n) = refl

  pub drop-drop : (x y : ℕ) (xs : List A) → drop y (drop x xs) ≡ drop (x + y) xs
  drop-drop zero y xs = ap (λ k. drop k xs) (omega arith)
  drop-drop (suc x) y [] = drop-nil y ∙ sym (drop-nil (suc x + y))
  drop-drop (suc x) y (a ∷ xs) =
      let e : suc x + y ≡ suc (x + y) = omega arith in rw e (drop-drop x y xs)

  -- The first `n` elements from `x` on do not change when a list is cut behind them.
  window-take :
      (x n k : ℕ) (xs : List A) → x + n ≤ k → take n (drop x (take k xs)) ≡ take n (drop x xs)
  window-take x zero k xs h = refl
  window-take zero (suc n) zero xs h = absurd (omega arith)
  window-take zero (suc n) (suc k) [] h = refl
  window-take zero (suc n) (suc k) (a ∷ xs) h =
      ap (λ t. a ∷ t) (window-take zero n k xs (omega arith))
  window-take (suc x) (suc n) zero xs h = absurd (omega arith)
  window-take (suc x) (suc n) (suc k) [] h = refl
  window-take (suc x) (suc n) (suc k) (a ∷ xs) h = window-take x (suc n) k xs (omega arith)

  pub slice-slice :
      (xs : List A) (lo hi x n : ℕ)
      → x + n ≤ length (slice xs lo hi)
      → slice (slice xs lo hi) x (x + n) ≡ slice xs (lo + x) (lo + x + n)
  slice-slice xs lo hi x n h =
      let e : x + n - x ≡ n = omega arith in
      let e' : lo + x + n - (lo + x) ≡ n = omega arith in
      rw (e, e')
        (window-take x n (hi - lo) (drop lo xs) (omega (arith, length-take (hi - lo) (drop lo xs)))
          ∙ ap (take n) (drop-drop lo x xs))

  pub length-slice_le : (xs : List A) (lo hi : ℕ) → length (slice xs lo hi) ≤ length xs - lo
  length-slice_le xs lo hi = omega (arith, length-take (hi - lo) (drop lo xs), length-drop lo xs)

pub All-get_or {ℓ κ} :
    {A : Type ℓ} (P : A → Type κ) (d : A) (xs : List A) (i : ℕ) → P d → All P xs → P (get_or xs i d)
All-get_or P d [] i p h = p
All-get_or P d (x ∷ xs) zero p h = h.0
All-get_or P d (x ∷ xs) (suc i) p h = All-get_or P d xs i p h.1
