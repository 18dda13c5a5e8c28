-- ===== src/Assembly/Complete/Valid.antt =====
-- What an assembly that completes leaves at the output path.
use zsync_rs.Prelude.{bytes_eq-eq, bytes_eq_refl}
use zsync_rs.Prelude.{ℕ, ◌-◌, ◌≡◌, ◌↔◌, refl, arith, true, map}
use zsync_rs.Prelude.{length, take, replicate, inl, inr, Option, none, some, Bool-cases}
use zsync_rs.Prelude.{length-append, length-take, length-replicate}
use zsync_rs.Control.Hex.{hex_encode}
use zsync_rs.Control.{Bytes}
use zsync_rs.Matcher.{is_complete}
use zsync_rs.Assembly.{ZsyncAssembly, opened}
use zsync_rs.Assembly.Complete.{
  Completion, check_digest, complete, set_len, to_ascii_lowercase, eq_ignore_ascii_case,
}

length-set_len : (n : ℕ) (content : Bytes) → length (set_len n content) ≡ n
unfolding set_len
length-set_len n content = omega (
  arith,
  length-append (take n content) (replicate (n - length content) 0),
  length-take n content,
  length-replicate {A = ℕ} (n - length content) 0,
)

-- The digest in the control file is that of the output, up to the case of its letters.
unfoldable pub HasDigest : Option Bytes → Bytes → Type 0
HasDigest none actual = Unit
HasDigest (some expected) actual = map to_ascii_lowercase actual ≡ map to_ascii_lowercase expected

-- The output is the temporary file cut to the target's length, every block is known, and a digest
-- that the control file names is that of the output.
unfoldable pub IsFinished : (Bytes → Bytes) → Bytes → ZsyncAssembly → Bytes → Type 0
IsFinished sha1 on_disk s out =
    (is_complete s.matcher ≡ true)
    × (out ≡ set_len s.control.file_length (opened on_disk s.file))
    × (length out ≡ s.control.file_length)
    × HasDigest s.control.sha1 (hex_encode (sha1 out))

IsOk : Completion → Bytes → Type 0
IsOk (Completion.ok content) out = out ≡ content
IsOk (Completion.err e) out = ⊥

ok-IsOk : (c : Completion) (out : Bytes) → c ≡ Completion.ok out → IsOk c out
unfolding IsOk
ok-IsOk c out h = rw h refl

check_digest-ok :
    (expected : Option Bytes) (actual content out : Bytes)
    → check_digest expected actual content ≡ Completion.ok out
    → (out ≡ content) × HasDigest expected actual
unfolding check_digest HasDigest IsOk eq_ignore_ascii_case
check_digest-ok none actual content out h = (ok-IsOk _ out h, tt)
check_digest-ok (some expected) actual content out h =
    elim (Bool-cases (eq_ignore_ascii_case actual expected)) [
      | inl same ↦ (ok-IsOk (Completion.ok content) out (rw same at h), bytes_eq-eq _ _ same)
      | inr differs ↦ absurd (ok-IsOk _ out (rw differs at h))
    ]

ok-check_digest :
    (expected : Option Bytes) (actual content : Bytes)
    → HasDigest expected actual
    → check_digest expected actual content ≡ Completion.ok content
unfolding check_digest HasDigest eq_ignore_ascii_case
ok-check_digest none actual content h = refl
ok-check_digest (some expected) actual content h =
    rw (h, bytes_eq_refl (map to_ascii_lowercase expected)) refl

-- `complete` succeeds with an output exactly if every block is known, the output is the temporary
-- file at the length of the target, and a digest in the control file is that of the output, up to
-- the case of its letters.
pub complete-IsFinished :
    (sha1 : Bytes → Bytes) (on_disk : Bytes) (s : ZsyncAssembly) (out : Bytes)
    → (complete sha1 on_disk s ≡ Completion.ok out) ↔ IsFinished sha1 on_disk s out
unfolding complete IsFinished IsOk
complete-IsFinished sha1 on_disk s out = elim (Bool-cases (is_complete s.matcher)) [
  | inl all ↦ (
    λ h.
        let (e, digest) = check_digest-ok s.control.sha1 _ content out (rw all at h) in
        (all, e, rw e (length-set_len _ _), rw e digest),
    λ fin. rw all (rw fin.1 (ok-check_digest s.control.sha1 _ content (rw fin.1 at fin.3))),
  )
  | inr some_missing ↦
      (λ h. absurd (ok-IsOk _ out (rw some_missing at h)), λ fin. cc (some_missing, fin.0))
]
  where
    content : Bytes
    content = set_len s.control.file_length (opened on_disk s.file)
