-- ===== src/Cli/Reporter/Once.antt =====
-- The final event of a phase, in the JSON mode of `Reporter` in src/bin/zsync.rs.
use zsync_rs.Prelude.{
  ℕ, suc, ◌≡◌, refl, ◌∙◌, inl, inr, Bool, true, false, List, [], ◌∷◌, ◌++◌, if◌then◌else◌,
  Bool-cases, some,
}
use zsync_rs.Cli.Json.{Text, Event}
use zsync_rs.Cli.Bar.{whole_percent}
use zsync_rs.Cli.Reporter.{Mode, Reporter, Output, progress_event, is_early, show, progress, finish}

-- A call of `progress` or of `finish`, with its instant and counts.
pub data Call : Type 0 where
  report : ℕ → ℕ → ℕ → Call
  ending : ℕ → ℕ → ℕ → Call

pub has_ending : List Call → Bool
has_ending [] = false
has_ending (Call.report now done total ∷ calls) = has_ending calls
has_ending (Call.ending now done total ∷ calls) = true

is_final : Output → Bool
is_final (Output.stdout (Event.progress phase file done total elapsed last)) = last
is_final _ = false

pub finals : List Output → ℕ
unfolding is_final
finals [] = 0
finals (o ∷ out) = if is_final o then suc (finals out) else finals out

-- Nothing stands behind a final event.
pub is_closed : List Output → Bool
unfolding is_final
is_closed [] = true
is_closed (o ∷ []) = true
is_closed (o ∷ o' ∷ out) = let rest = is_closed (o' ∷ out) in if is_final o then false else rest

is_closed_behind :
    (o : Output) (out : List Output) → is_final o ≡ false → is_closed (o ∷ out) ≡ is_closed out
unfolding is_closed
is_closed_behind o [] h = refl
is_closed_behind o (o' ∷ out) h = rw h refl

module _ (fixed2 : ℕ → ℕ → Text) where
  call : Call → Reporter → Reporter × List Output
  call (Call.report now done total) r = progress fixed2 now done total r
  call (Call.ending now done total) r = finish fixed2 now done total r

  -- The calls of one phase, in order.
  pub run : Reporter → List Call → List Output
  unfolding call
  run r [] = []
  run r (c ∷ calls) = let (r', out) = call c r in out ++ run r' calls

  progress_finished :
      (now done total : ℕ) (r : Reporter)
      → r.finished ≡ true
      → progress fixed2 now done total r ≡ (r, [])
  unfolding progress
  progress_finished now done total r h = rw h refl

  finish_finished :
      (now done total : ℕ) (r : Reporter)
      → r.finished ≡ true
      → finish fixed2 now done total r ≡ (r, [])
  unfolding finish
  finish_finished now done total r h = rw h refl

  -- Once a phase has ended, nothing is printed.
  run_finished : (calls : List Call) (r : Reporter) → r.finished ≡ true → run r calls ≡ []
  unfolding run call
  run_finished [] r h = refl
  run_finished (Call.report now done total ∷ calls) r h =
      rw (progress_finished now done total r h) (run_finished calls r h)
  run_finished (Call.ending now done total ∷ calls) r h =
      rw (finish_finished now done total r h) (run_finished calls r h)

  progress_early :
      (now done total : ℕ) (r : Reporter)
      → r.finished ≡ false
      → is_early now (record r { latest = some (done, total) }) ≡ true
      → progress fixed2 now done total r ≡ (record r { latest = some (done, total) }, [])
  unfolding progress
  progress_early now done total r running early = rw (running, early) refl

  progress_json :
      (now done total : ℕ) (r : Reporter)
      → r.mode ≡ Mode.json
      → r.finished ≡ false
      → is_early now (record r { latest = some (done, total) }) ≡ false
      → let r' : Reporter = record r {
        latest = some (done, total);
        last_emit = some now;
        last_percent = whole_percent done total;
      } in
        progress fixed2 now done total r
        ≡ (r', Output.stdout (progress_event now done total false r') ∷ [])
  unfolding progress
  progress_json now done total r json running late = simp (running, late, json, show)

  finish_json :
      (now done total : ℕ) (r : Reporter)
      → r.mode ≡ Mode.json
      → r.finished ≡ false
      → let r' : Reporter = record r { finished = true } in
        finish fixed2 now done total r
        ≡ (r', Output.stdout (progress_event now done total true r') ∷ [])
  unfolding finish
  finish_json now done total r json running = simp (running, json, finish)

  -- In JSON mode, in a phase that has not ended, whatever calls of `progress` and `finish` follow:
  -- exactly one final event is printed if `finish` is among them and none otherwise, and nothing is
  -- printed behind it.
  pub finish_once :
      (calls : List Call) (r : Reporter)
      → r.mode ≡ Mode.json
      → r.finished ≡ false
      → (finals (run r calls) ≡ (if has_ending calls then 1 else 0))
        × (is_closed (run r calls) ≡ true)
  unfolding run call finals is_closed has_ending
  finish_once [] r json running = (refl, refl)
  finish_once (Call.report now done total ∷ calls) r json running =
      elim (Bool-cases (is_early now r1)) [
        | inl early ↦
            rw (progress_early now done total r running early) (finish_once calls r1 json running)
        | inr late ↦
            let (count, closed) = finish_once calls r2 json running in
            rw (progress_json now done total r json running late) (
              count,
              is_closed_behind (Output.stdout (progress_event now done total false r2))
                    (run r2 calls) (unfold is_final in refl)
                  ∙ closed,
            )
      ]
    where
      r1 : Reporter
      r1 = record r { latest = some (done, total) }

      r2 : Reporter
      r2 = record r1 { last_emit = some now; last_percent = whole_percent done total }
  finish_once (Call.ending now done total ∷ calls) r json running =
      rw
        (
          finish_json now done total r json running,
          run_finished calls (record r { finished = true }) refl,
        )
        (refl, refl)
