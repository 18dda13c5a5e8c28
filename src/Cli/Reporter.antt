-- ===== src/Cli/Reporter.antt =====
-- `Reporter` of src/bin/zsync.rs, which prints the progress of a transfer. An instant is a number of
-- milliseconds; the readings of the clock within one call are taken to be one.
pub mod Once
pub mod Spaced
use zsync_rs.Prelude.{
  ℕ, ◌+◌, ◌-◌, ◌^◌, Bool, true, false, not, ◌&&◌, List, [], ◌∷◌, ◌++◌, ltb, ◌==◌, codes,
  if◌then◌else◌, Option, none, some,
}
use zsync_rs.Cli.Json.{Text, Event, json_escape}
use zsync_rs.Cli.Bar.{whole_percent, print_i32, format_bytes, render_bar}

pub data Mode : Type 0 where
  bar lines json : Mode

abbrev pub is_lines : Mode → Bool
is_lines Mode.lines = true
is_lines _ = false

abbrev pub is_json : Mode → Bool
is_json Mode.json = true
is_json _ = false

pub record Reporter : Type 0 where
  pub mode : Mode
  pub started : ℕ
  pub phase : Text
  pub file : Option Text
  pub latest : Option (ℕ × ℕ)
  pub last_emit : Option ℕ
  pub last_percent : ℕ
  pub bar_drawn : Bool
  pub finished : Bool

-- What is printed: an event on standard output, or text on standard error.
pub data Output : Type 0 where
  stdout : Event → Output
  stderr : Text → Output

-- The 32-bit pattern of -1.
abbrev no_percent : ℕ
no_percent = 2 ^ 32 - 1

-- `PROGRESS_INTERVAL`
abbrev pub progress_interval : ℕ
progress_interval = 100

unfoldable pub new_reporter : Mode → ℕ → Reporter
new_reporter mode now = record {
  mode = mode;
  started = now;
  phase = codes "download";
  file = none;
  latest = none;
  last_emit = none;
  last_percent = no_percent;
  bar_drawn = false;
  finished = false;
}

unfoldable pub begin : Text → Option Text → Reporter → Reporter
begin phase file r = record r {
  phase = phase;
  file = elim file [ none ↦ none | some f ↦ some (json_escape f) ];
  latest = none;
  last_emit = none;
  last_percent = no_percent;
  finished = false;
}

-- The event of `progress_json`.
abbrev pub progress_event : ℕ → ℕ → ℕ → Bool → Reporter → Event
progress_event now done total last r =
    Event.progress r.phase r.file done total (now - r.started) last

-- An `emit` function prints its event only in JSON mode.
abbrev emit : Event → Reporter → List Output
emit event r = if is_json r.mode then Output.stdout event ∷ [] else []

-- Whether the last progress was printed less than an interval ago.
unfoldable pub is_early : ℕ → Reporter → Bool
is_early now r = elim r.last_emit [ none ↦ false | some last ↦ ltb (now - last) progress_interval ]

abbrev is_some : Option ℕ → Bool
is_some none = false
is_some (some last) = true

unfoldable pub end_bar : Reporter → Reporter × List Output
end_bar r =
    if r.bar_drawn
    then (record r { bar_drawn = false }, Output.stderr (codes "\n") ∷ [])
    else (r, [])

unfoldable pub emit_start : ℕ → ℕ → ℕ → Reporter → List Output
emit_start total_bytes total_blocks blocksize r =
    emit (Event.start total_bytes total_blocks blocksize) r

unfoldable pub emit_phase : Text → Reporter → List Output
emit_phase name r = emit (Event.phase name) r

unfoldable pub emit_done : Text → Reporter → List Output
emit_done path r = emit (Event.done path) r

unfoldable pub emit_retry : ℕ → ℕ → ℕ → Text → Reporter → Reporter × List Output
unfolding end_bar
emit_retry attempt retries delay_ms message r =
    let (r', out) = end_bar r in (r', out ++ emit (Event.retry attempt retries delay_ms message) r')

unfoldable pub emit_error : Text → Reporter → Reporter × List Output
unfolding end_bar
emit_error message r = let (r', out) = end_bar r in (r', out ++ emit (Event.error message) r')

module _ (fixed2 : ℕ → ℕ → Text) where
  unfoldable pub draw_bar : ℕ → ℕ → Reporter → Reporter × List Output
  draw_bar done total r = (
    record r { bar_drawn = true },
    Output.stderr (codes "\r" ++ (render_bar fixed2 done total ++ (0x1b ∷ codes "[K"))) ∷ [],
  )

  -- "  {} / {} ({percent}%)"
  unfoldable pub percent_line : ℕ → ℕ → ℕ → Output
  percent_line done total percent = Output.stderr (
      codes "  "
      ++ (format_bytes fixed2 done
          ++ (codes " / "
              ++ (format_bytes fixed2 total
                  ++ (codes " (" ++ (print_i32 percent ++ codes "%)\n"))))))

  -- What `progress` prints once the throttle allows it.
  unfoldable pub show : ℕ → ℕ → ℕ → ℕ → Reporter → Reporter × List Output
  unfolding draw_bar percent_line
  show now done total percent r = elim r.mode as (λ m. Reporter × List Output) [
    | Mode.json ↦ (r, Output.stdout (progress_event now done total false r) ∷ [])
    | Mode.bar ↦ draw_bar done total r
    | Mode.lines ↦ (r, percent_line done total percent ∷ [])
  ]

  unfoldable pub progress : ℕ → ℕ → ℕ → Reporter → Reporter × List Output
  unfolding is_early show
  progress now done total r =
      let r1 : Reporter = record r { latest = some (done, total) } in
      let percent = whole_percent done total in
      let r2 : Reporter = record r1 { last_emit = some now; last_percent = percent } in
      if r.finished
      then (r, [])
      else if is_early now r1
      then (r1, [])
      else if is_lines r.mode && (percent == r.last_percent)
      then (r1, [])
      else show now done total percent r2

  unfoldable pub finish : ℕ → ℕ → ℕ → Reporter → Reporter × List Output
  unfolding draw_bar percent_line end_bar
  finish now done total r =
      let r1 : Reporter = record r { finished = true } in
      let drawn = draw_bar done total r1 in
      let ended = end_bar drawn.0 in
      let percent = whole_percent done total in
      if r.finished then (r, []) else elim r.mode as (λ m. Reporter × List Output) [
        | Mode.json ↦ (r1, Output.stdout (progress_event now done total true r1) ∷ [])
        | Mode.bar ↦ if r.bar_drawn then (ended.0, drawn.1 ++ ended.1) else (r1, [])
        | Mode.lines ↦
            if is_some r.last_emit && not (percent == r.last_percent)
            then (r1, percent_line done total percent ∷ [])
            else (r1, [])
      ]

  unfoldable pub finish_scan : ℕ → Reporter → Reporter × List Output
  unfolding finish
  finish_scan now r = elim r.latest as (λ l. Reporter × List Output) [
    | some (done, total) ↦ finish now done total r
    | none ↦ (record r { finished = true }, [])
  ]
