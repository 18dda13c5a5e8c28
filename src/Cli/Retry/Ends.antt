-- ===== src/Cli/Retry/Ends.antt =====
-- The download loop of src/bin/zsync.rs ends.
use mathlib.Core.Path.{subst}
use zsync_rs.Prelude.{
  ℕ, zero, suc, ◌+◌, ◌-◌, ◌*◌, ◌≤◌, ◌<◌, ◌≡◌, ◌≢◌, refl, ap, arith, inl, inr, Bool, true, false,
  ◌&&◌, ltb, ltb→lt, ltb→ge, &&_both, ◌==◌, length, Bool-cases, Option, Option-cases, some,
}
use zsync_rs.Control.{Bytes}
use zsync_rs.Matcher.{BlockMatcher, blocks_todo, total_blocks, is_complete}
use zsync_rs.Matcher.Known.{IsValid, count_known-le}
use zsync_rs.Http.Client.{Answer}
use zsync_rs.Assembly.{ZsyncAssembly, AssemblyError, is_transient, block_stats}
use zsync_rs.Assembly.Download.{download_missing_blocks}
use zsync_rs.Assembly.Download.Counts.{download_missing_blocks-IsCounted}
use zsync_rs.Assembly.Download.Counts.Buffer.{IsCounted}
use zsync_rs.Cli.Retry.{Attempts, Outcome, on_error, settle, download_loop, download}

known_fits : (m : BlockMatcher) → IsValid m → m.known_count ≤ total_blocks m
unfolding total_blocks
known_fits m v = omega (arith, v.counted, v.known_length, count_known-le m.known_blocks)

block_stats-known :
    (s : ZsyncAssembly) → IsValid s.matcher → (block_stats s).0 ≡ s.matcher.known_count
unfolding block_stats blocks_todo total_blocks
block_stats-known s v =
    omega (arith, v.counted, v.known_length, count_known-le s.matcher.known_blocks)

positive : (n : ℕ) → (n == 0) ≡ false → 1 ≤ n
positive n h = ground arith

-- What is left of the patience of the loop.
abbrev pub patience : ℕ → ℕ → ℕ → Attempts → ℕ
patience retries total known a =
    (total - a.known_at_failure) * (retries + 1) + (retries - a.failures) + (total - known)

rows : (a b r : ℕ) → a < b → a * (r + 1) + (r + 1) ≤ b * (r + 1)
rows a b r h = grind arith

-- A failure that is waited for takes patience.
on_error-patience :
    (retries total known d : ℕ) (e : AssemblyError) (a : Attempts)
    → a.known_at_failure ≤ known
    → known ≤ total
    → a.failures ≤ retries
    → (on_error retries e known a).1 ≡ some d
    → let a' = (on_error retries e known a).0 in
      (patience retries total known a' < patience retries total known a)
      × (a'.failures ≤ retries)
      × (a'.known_at_failure ≡ known)
unfolding on_error
on_error-patience retries total known d e a past fits few h =
    elim (Bool-cases (ltb a.known_at_failure known)) [
      | inl grown ↦ elim (Bool-cases (is_transient e && ltb 0 retries)) [
        | inr gone ↦ absurd (cc (rw (grown, gone) at h))
        | inl wait ↦
            let some_left : 0 < retries =
              ltb→lt 0 retries (&&_both (is_transient e) (ltb 0 retries) wait).1 in
            let less =
              rows (total - known) (total - a.known_at_failure) retries
                (omega (arith, ltb→lt _ _ grown)) in
            rw (grown, wait) (omega (arith, less, some_left), omega (arith, some_left), refl)
      ]
      | inr still ↦ elim (Bool-cases (is_transient e && ltb a.failures retries)) [
        | inr gone ↦ absurd (cc (rw (still, gone) at h))
        | inl wait ↦
            let some_left : a.failures < retries =
              ltb→lt a.failures retries
                (&&_both (is_transient e) (ltb a.failures retries) wait).1 in
            let same : a.known_at_failure ≡ known =
              omega (arith, ltb→ge a.known_at_failure known still, past) in
            let rest : (total - a.known_at_failure) * (retries + 1)
                ≡ (total - known) * (retries + 1) =
              ap (λ k. (total - k) * (retries + 1)) same in
            rw (still, wait) (omega (arith, rest, some_left), omega (arith, some_left), refl)
      ]
    ]

-- What the loop is at: a valid matcher of `total` blocks that fits its control file.
abbrev pub IsAt : ℕ → ZsyncAssembly → Attempts → Type 0
IsAt total s a =
    IsCounted total s.matcher.known_count s 0 × (a.known_at_failure ≤ s.matcher.known_count)

module _ (md4 : Bytes → Bytes) (on_disk : Bytes) {W R : Type 0}
    (call : W → Bytes → ℕ → ℕ → W × Answer R) (read_inner : R → ℕ → R × Option Bytes)
    (poll : W → W × Bool) (retries total : ℕ) where
  download_loop_ends :
      (rounds : ℕ) (w : W) (s : ZsyncAssembly) (a : Attempts)
      → IsAt total s a
      → a.failures ≤ retries
      → patience retries total s.matcher.known_count a < rounds
      → let (w', s', delays, outcome) =
          download_loop md4 on_disk call read_inner poll retries rounds w s a in
        outcome ≢ Outcome.out_of_rounds
  unfolding download_loop
  download_loop_ends zero w s a at_s few enough = absurd (omega arith)
  download_loop_ends (suc rounds) w s a at_s few enough = elim (Option-cases tried.3) [
    | inl fine ↦ elim (Bool-cases (tried.2 == 0)) [
      | inl nothing ↦ rw (fine, download_loop, nothing) (λ e. cc)
      | inr some_blocks ↦
          rw (fine, download_loop, some_blocks)
            (download_loop_ends rounds tried.0 tried.1 a (next, omega (arith, at_s.1, counted.3))
              few (omega (arith, enough, counted.3, fits, positive tried.2 some_blocks)))
    ]
    | inr (e, error) ↦ elim (Option-cases (on_error retries e (block_stats tried.1).0 a).1) [
      | inl over ↦ rw (error, download_loop, over) (λ f. cc)
      | inr (d, wait) ↦
          let (less, few', here) =
            on_error-patience retries total (block_stats tried.1).0 d e a
              (omega (arith, known, at_s.1, counted.3)) (omega (arith, known, fits)) few wait in
          rw (error, download_loop, wait)
            (download_loop_ends rounds tried.0 tried.1
              (on_error retries e (block_stats tried.1).0 a).0 (next, omega (arith, here, known))
              few' (omega (arith, less, known, enough, counted.3)))
    ]
  ]
    where
      tried : W × ZsyncAssembly × ℕ × Option AssemblyError
      tried = download_missing_blocks md4 on_disk call read_inner poll w s

      counted : IsCounted total s.matcher.known_count tried.1 tried.2
      counted =
          let (valid, fits, size, count, all) = at_s.0 in
          subst (λ t. IsCounted t s.matcher.known_count tried.1 tried.2) all
            (download_missing_blocks-IsCounted md4 on_disk call read_inner poll w s
              (valid, fits, size, count, refl))

      next : IsCounted total tried.1.matcher.known_count tried.1 0
      next = (counted.0, counted.1, counted.2, omega arith, counted.4)

      fits : tried.1.matcher.known_count ≤ total
      fits = omega (arith, known_fits tried.1.matcher counted.0, counted.4)

      known : (block_stats tried.1).0 ≡ tried.1.matcher.known_count
      known = block_stats-known tried.1 counted.0

  -- The measure at the start, from the blocks that are missing.
  patience_start :
      (s : ZsyncAssembly)
      → IsValid s.matcher
      → total_blocks s.matcher ≡ total
      → patience retries total s.matcher.known_count
          (record { failures = 0; known_at_failure = (block_stats s).0 })
        ≤ blocks_todo s.matcher * (retries + 2) + retries
  unfolding blocks_todo total_blocks
  patience_start s v all =
      let known = block_stats-known s v in
      let missing : total - (block_stats s).0
          ≡ length s.matcher.known_blocks - s.matcher.known_count =
        omega (arith, known, v.known_length, all) in
      let row : (total - (block_stats s).0) * (retries + 1)
          ≡ blocks_todo s.matcher * (retries + 1) =
        ap (λ k. k * (retries + 1)) missing in
      let two : blocks_todo s.matcher * (retries + 2)
          ≡ blocks_todo s.matcher * (retries + 1) + blocks_todo s.matcher =
        grind arith in
      omega (arith, known, missing, row, two)

settle_sound :
    (s : ZsyncAssembly) (o : Outcome)
    → o ≢ Outcome.out_of_rounds
    → (settle s o ≢ Outcome.out_of_rounds)
      × (settle s o ≡ Outcome.ready → is_complete s.matcher ≡ true)
unfolding settle
settle_sound s Outcome.ready h = elim (Bool-cases (is_complete s.matcher)) [
  | inl whole ↦ rw whole (h, λ e. refl)
  | inr partly ↦ rw partly (λ e. cc, λ e. cc)
]
settle_sound s Outcome.out_of_rounds h = absurd (h refl)
settle_sound s (Outcome.failed e) h = (h, λ e. cc)
settle_sound s (Outcome.mismatched missing total) h = (h, λ e. cc)

-- From a valid matcher whose block size is that of the control file and at least one, with more
-- than `blocks_todo * (retries + 2) + retries` rounds, and however the network, the reads and the
-- abort flag behave: the download loop with its retries comes to an end, and it ends as ready only
-- if every block is known.
pub download_ends :
    (md4 : Bytes → Bytes) (on_disk : Bytes) {W R : Type 0} (call : W → Bytes → ℕ → ℕ → W × Answer R)
    (read_inner : R → ℕ → R × Option Bytes) (poll : W → W × Bool) (retries rounds : ℕ) (w : W)
    (s : ZsyncAssembly)
    → IsValid s.matcher
    → s.matcher.blocksize ≡ s.control.blocksize
    → 1 ≤ s.control.blocksize
    → blocks_todo s.matcher * (retries + 2) + retries < rounds
    → let (w', s', delays, outcome) =
        download md4 on_disk call read_inner poll retries rounds w s in
      (outcome ≢ Outcome.out_of_rounds) × (outcome ≡ Outcome.ready → is_complete s'.matcher ≡ true)
unfolding download
download_ends md4 on_disk call read_inner poll retries rounds w s valid fits size enough =
    elim (Bool-cases (is_complete s.matcher)) [
      | inl whole ↦ rw (whole, download) (settle_sound s Outcome.ready (λ e. cc))
      | inr partly ↦
          let start : Attempts = record { failures = 0; known_at_failure = (block_stats s).0 } in
          let looped = download_loop md4 on_disk call read_inner poll retries rounds w s start in
          let known = block_stats-known s valid in
          rw (partly, download)
            (settle_sound looped.1 looped.3 (
              download_loop_ends md4 on_disk call read_inner poll retries (total_blocks s.matcher)
                rounds w s start ((valid, fits, size, omega arith, refl), omega (arith, known))
                (omega arith)
                (omega (
                  arith,
                  enough,
                  patience_start md4 on_disk call read_inner poll retries (total_blocks s.matcher) s
                      valid refl,
                ))))
    ]
