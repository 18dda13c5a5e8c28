-- ===== src/Cli/Retry.antt =====
-- The download loop of `main` in src/bin/zsync.rs.
pub mod Ends
use zsync_rs.Prelude.{
  ℕ, zero, suc, ◌+◌, ◌-◌, ◌^◌, min, Bool, true, false, ◌&&◌, List, [], ◌∷◌, ltb, ◌==◌,
  if◌then◌else◌, Option, none, some,
}
use zsync_rs.Control.{Bytes}
use zsync_rs.Matcher.{is_complete}
use zsync_rs.Http.Client.{Answer}
use zsync_rs.Assembly.{ZsyncAssembly, AssemblyError, is_transient, block_stats}
use zsync_rs.Assembly.Download.{download_missing_blocks}

-- The variables of the loop.
pub record Attempts : Type 0 where
  pub failures : ℕ
  pub known_at_failure : ℕ

-- How the loop and what follows it end. `out_of_rounds` is no outcome of the code.
pub data Outcome : Type 0 where
  ready out_of_rounds : Outcome
  failed : AssemblyError → Outcome
  mismatched : ℕ → ℕ → Outcome

-- `Duration::from_secs(2u64.saturating_pow(failures).min(60))`
unfoldable pub delay_of : ℕ → ℕ
delay_of failures = min (min (2 ^ failures) (2 ^ 64 - 1)) 60

-- What an error does: the variables afterwards, and how long to wait, or `none` to give up.
unfoldable pub on_error : ℕ → AssemblyError → ℕ → Attempts → Attempts × Option ℕ
on_error retries e known a =
    let failures = if ltb a.known_at_failure known then 0 else a.failures in
    if is_transient e && ltb failures retries
    then (
      record { failures = failures + 1; known_at_failure = known },
      some (delay_of (failures + 1)),
    )
    else (record { failures = failures; known_at_failure = known }, none)

-- Blocks that arrived but did not verify are still missing.
unfoldable pub settle : ZsyncAssembly → Outcome → Outcome
settle s Outcome.ready =
    let (known, total) = block_stats s in
    if is_complete s.matcher then Outcome.ready else Outcome.mismatched (total - known) total
settle s Outcome.out_of_rounds = Outcome.out_of_rounds
settle s (Outcome.failed e) = Outcome.failed e
settle s (Outcome.mismatched missing total) = Outcome.mismatched missing total

module _ (md4 : Bytes → Bytes) (on_disk : Bytes) {W R : Type 0}
    (call : W → Bytes → ℕ → ℕ → W × Answer R) (read_inner : R → ℕ → R × Option Bytes)
    (poll : W → W × Bool) (retries : ℕ) where
  -- The loop, with the delays that it waits.
  unfoldable pub download_loop :
      ℕ → W → ZsyncAssembly → Attempts → W × ZsyncAssembly × List ℕ × Outcome
  download_loop zero w s a = (w, s, [], Outcome.out_of_rounds)
  download_loop (suc rounds) w s a =
      let (w', s', n, error) = download_missing_blocks md4 on_disk call read_inner poll w s in
      let again = λ (a' : Attempts). download_loop rounds w' s' a' in
      elim error as (λ e. W × ZsyncAssembly × List ℕ × Outcome) [
        | none ↦ if n == 0 then (w', s', [], Outcome.ready) else again a
        | some e ↦
            let (a', delay) = on_error retries e (block_stats s').0 a in
            elim delay as (λ d. W × ZsyncAssembly × List ℕ × Outcome) [
              | none ↦ (w', s', [], Outcome.failed e)
              | some d ↦
                  let (w'', s'', delays, outcome) = again a' in (w'', s'', d ∷ delays, outcome)
            ]
      ]

  -- The loop where blocks are missing, and the check behind it.
  unfoldable pub download : ℕ → W → ZsyncAssembly → W × ZsyncAssembly × List ℕ × Outcome
  unfolding download_loop settle
  download rounds w s =
      let start : Attempts = record { failures = 0; known_at_failure = (block_stats s).0 } in
      let looped = download_loop rounds w s start in
      let ended = if is_complete s.matcher then (w, s, [], Outcome.ready) else looped in
      (ended.0, ended.1, ended.2, settle ended.1 ended.3)
