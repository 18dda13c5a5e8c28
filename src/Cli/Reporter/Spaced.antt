-- ===== src/Cli/Reporter/Spaced.antt =====
-- The throttle of `Reporter::progress` in src/bin/zsync.rs.
use mathlib.Core.Path.{subst}
use zsync_rs.Prelude.{
  ℕ, ◌+◌, ◌-◌, ◌≤◌, ◌≡◌, refl, arith, inl, inr, Bool, true, false, ◌&&◌, List, [], ◌∷◌, ltb, ltb→ge,
  ◌==◌, if◌then◌else◌, Bool-cases, Option, none, some, OptionHolds,
}
use zsync_rs.Cli.Json.{Text}
use zsync_rs.Cli.Bar.{whole_percent}
use zsync_rs.Cli.Reporter.{
  Mode, Reporter, Output, is_lines, progress_interval, is_early, show, progress,
}

-- Instants that are an interval apart at least, and one behind `last`.
pub IsSpaced : Option ℕ → List ℕ → Type 0
IsSpaced last [] = Unit
IsSpaced last (now ∷ later) =
    OptionHolds (λ t. t + progress_interval ≤ now) last × IsSpaced (some now) later

abbrev is_silent : List Output → Bool
is_silent [] = true
is_silent (o ∷ out) = false

late_enough :
    (now : ℕ) (last : Option ℕ)
    → (elim last as (λ l. Bool) [ none ↦ false | some t ↦ ltb (now - t) progress_interval ]) ≡ false
    → OptionHolds (λ t. t + progress_interval ≤ now) last
late_enough now none h = tt
late_enough now (some t) h = omega (arith, ltb→ge (now - t) progress_interval h)

module _ (fixed2 : ℕ → ℕ → Text) where
  -- The instants at which a row of calls of `progress`, each with its instant and counts, prints.
  unfoldable pub shown : Reporter → List (ℕ × ℕ × ℕ) → List ℕ
  shown r [] = []
  shown r ((now, done, total) ∷ calls) =
      let (r', out) = progress fixed2 now done total r in
      let rest = shown r' calls in if is_silent out then rest else now ∷ rest

  -- What a call prints, and the instant that it leaves.
  data Called (now done total : ℕ) (r : Reporter) : Type 0 where
    silent :
        is_silent (progress fixed2 now done total r).1 ≡ true
        → (progress fixed2 now done total r).0.last_emit ≡ r.last_emit
        → Called now done total r
    loud :
        OptionHolds (λ t. t + progress_interval ≤ now) r.last_emit
        → is_silent (progress fixed2 now done total r).1 ≡ false
        → (progress fixed2 now done total r).0.last_emit ≡ some now
        → Called now done total r

  not_early :
      (now : ℕ) (r : Reporter)
      → is_early now r ≡ false
      → OptionHolds (λ t. t + progress_interval ≤ now) r.last_emit
  unfolding is_early
  not_early now r h = late_enough now r.last_emit h

  show_loud :
      (now done total percent : ℕ) (r : Reporter)
      → (is_silent (show fixed2 now done total percent r).1 ≡ false)
        × ((show fixed2 now done total percent r).0.last_emit ≡ r.last_emit)
  unfolding show
  show_loud now done total percent r = by_mode r.mode refl
    where
      by_mode :
          (m : Mode)
          → r.mode ≡ m
          → (is_silent (show fixed2 now done total percent r).1 ≡ false)
            × ((show fixed2 now done total percent r).0.last_emit ≡ r.last_emit)
      by_mode Mode.bar e = rw (e, show) (refl, refl)
      by_mode Mode.lines e = rw (e, show) (refl, refl)
      by_mode Mode.json e = rw (e, show) (refl, refl)

  called : (now done total : ℕ) (r : Reporter) → Called now done total r
  unfolding progress
  called now done total r = elim (Bool-cases r.finished) [
    | inl over ↦ silent (rw over refl) (rw over refl)
    | inr on ↦ elim (Bool-cases (is_early now (record r { latest = some (done, total) }))) [
      | inl early ↦ silent (rw (on, early) refl) (rw (on, early) refl)
      | inr late ↦
          elim (Bool-cases (is_lines r.mode && (whole_percent done total == r.last_percent))) [
            | inl same ↦ silent (rw (on, late, same) refl) (rw (on, late, same) refl)
            | inr new ↦
                let (loud_out, left) =
                  show_loud now done total (whole_percent done total) (record r {
                    latest = some (done, total);
                    last_emit = some now;
                    last_percent = whole_percent done total;
                  }) in
                loud (not_early now (record r { latest = some (done, total) }) late)
                  (rw (on, late, new) loud_out) (rw (on, late, new) left)
          ]
    ]
  ]

  -- In every mode and for any row of calls of `progress`, whatever the clock reads: each call that
  -- prints comes at least an interval after the one that printed before it, the last before the row
  -- included.
  pub progress-IsSpaced :
      (r : Reporter) (calls : List (ℕ × ℕ × ℕ)) → IsSpaced r.last_emit (shown r calls)
  unfolding shown IsSpaced
  progress-IsSpaced r [] = tt
  progress-IsSpaced r ((now, done, total) ∷ calls) = elim (called now done total r) [
    | silent quiet same ↦
        rw quiet (subst (λ l. IsSpaced l (shown after calls)) same (progress-IsSpaced after calls))
    | loud spaced printed here ↦
        rw printed
          (spaced, subst (λ l. IsSpaced l (shown after calls)) here (progress-IsSpaced after calls))
  ]
    where
      after : Reporter
      after = (progress fixed2 now done total r).0
