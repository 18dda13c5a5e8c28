-- ===== src/Cli/Bar/Range.antt =====
-- The share of the bar of src/bin/zsync.rs that is filled.
use native.Mathlib.Nat.{div-mul-le_self, div-lt_iff_lt-mul, lt-div-mul-add}
use zsync_rs.Prelude.{
  ℕ, ◌+◌, ◌-◌, ◌*◌, ◌/◌, ◌^◌, ◌≤◌, ◌<◌, ◌≡◌, arith, false, min, replicate, length, length-append,
  length-replicate, ◌==◌,
}
use zsync_rs.Cli.Bar.{bar_width, whole_percent, clamped, cells}

clamped-le : (percent : ℕ) → clamped percent ≤ 100
unfolding clamped
clamped-le percent = ground arith

length-cells : (done total : ℕ) → length (cells done total) ≡ bar_width
unfolding cells
length-cells done total =
    let filled = clamped (whole_percent done total) * bar_width / 100 in
    omega (
      arith,
      clamped-le (whole_percent done total),
      length-append {A = ℕ} (replicate filled b'#') (replicate (bar_width - filled) b' '),
      length-replicate {A = ℕ} filled b'#',
      length-replicate {A = ℕ} (bar_width - filled) b' ',
    )

whole_percent_exact :
    (done total : ℕ)
    → 1 ≤ total
    → total ≤ 2 ^ 46
    → done ≤ total
    → (done * 100 / total ≤ 100) × (whole_percent done total ≡ done * 100 / total)
unfolding whole_percent
whole_percent_exact done total h k l =
    let small : done * 100 / total < 101 =
      (div-lt_iff_lt-mul {k = total} {x = done * 100} {y = 101} h).1 (omega arith) in
    let some_bytes : (total == 0) ≡ false = ground arith in
    let unsaturated : min (done * 100) (2 ^ 64 - 1) ≡ done * 100 = omega arith in
    (omega arith, rw (some_bytes, unsaturated) (omega arith))

pub whole_percent-cells :
    (done total : ℕ)
    → 1 ≤ total
    → total ≤ 2 ^ 46
    → done ≤ total
    → let percent = whole_percent done total in
      (percent * total ≤ done * 100)
      × (done * 100 < (percent + 1) * total)
      × (clamped percent ≡ percent)
      × (length (cells done total) ≡ bar_width)
whole_percent-cells done total h k l =
    let (small, exact) = whole_percent_exact done total h k l in
    let below : done * 100 / total * total ≤ done * 100 = div-mul-le_self (done * 100) total in
    let above : done * 100 < (done * 100 / total + 1) * total =
      omega (arith, lt-div-mul-add {a = done * 100} {b = total} h, row (done * 100 / total)) in
    rw exact (below, above, unfold clamped in ground arith, length-cells done total)
  where
    row : (q : ℕ) → (q + 1) * total ≡ q * total + total
    row q = grind arith
