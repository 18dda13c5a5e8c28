-- ===== src/Control/Text/Lines.antt =====
-- Lines that hold no newline, and the pieces of `key: value`.
use mathlib.Core.List.{append_assoc}
use zsync_rs.Prelude.{
  ℕ, zero, suc, ◌≤◌, ◌<◌, ◌≡◌, ◌≢◌, refl, sym, ap, ◌∙◌, inl, inr, arith, true, false, [], ◌∷◌, ◌++◌,
  length, All, ◌==◌, Option, none, some, Option-cases,
}
use zsync_rs.Control.{Bytes}
use zsync_rs.Control.Text.{
  Utf8, utf8_start, utf8_first, utf8_step, utf8_run, ends_whole, is_utf8, read_line, keep_blank,
  trim_end, trim_start, split_once,
}

-- A value that a line gives back: UTF-8 with no newline, and nothing to trim.
pub record IsText (value : Bytes) : Type 0 where
  pub whole : is_utf8 value ≡ true
  pub one_line : All (λ c. c ≢ b'\n') value
  pub trimmed_start : trim_start value ≡ value
  pub trimmed_end : trim_end value ≡ value

-- A byte of a header's name.
abbrev pub IsKeyByte : ℕ → Type 0
IsKeyByte c = (c < 0x80) × (c ≢ b':') × (b' ' < c)

step_whole : (u : Utf8) (c : ℕ) → (u.pending == 0) ≡ true → utf8_step u c ≡ utf8_step utf8_start c
unfolding utf8_step
step_whole u c h = rw h refl

after_whole :
    (u : Utf8) (ys : Bytes)
    → (u.pending == 0) ≡ true
    → ends_whole (utf8_run u ys) ≡ ends_whole (utf8_run utf8_start ys)
unfolding utf8_run ends_whole
after_whole u [] h = h
after_whole u (c ∷ ys) h =
    ap (λ (o : Option Utf8). ends_whole (elim o [ none ↦ none | some u' ↦ utf8_run u' ys ]))
      (step_whole u c h)

utf8_run-append :
    (xs ys : Bytes) (u : Utf8)
    → utf8_run u (xs ++ ys) ≡ (elim (utf8_run u xs) [ none ↦ none | some u' ↦ utf8_run u' ys ])
unfolding utf8_run
utf8_run-append [] ys u = refl
utf8_run-append (c ∷ xs) ys u = elim (Option-cases (utf8_step u c)) [
  | inl bad ↦ rw (bad, utf8_run) refl
  | inr (u', good) ↦ rw (good, utf8_run) (utf8_run-append xs ys u')
]

pub is_utf8-append : (xs ys : Bytes) → is_utf8 xs ≡ true → is_utf8 (xs ++ ys) ≡ is_utf8 ys
unfolding is_utf8 ends_whole
is_utf8-append xs ys h = elim (Option-cases (utf8_run utf8_start xs)) [
  | inl bad ↦ cc (rw (bad, is_utf8) at h)
  | inr (u, good) ↦
      ap ends_whole (utf8_run-append xs ys utf8_start) ∙ rw good (after_whole u ys (rw good at h))
]

pub is_utf8_ascii : (xs : Bytes) → All (λ c. c < 0x80) xs → is_utf8 xs ≡ true
unfolding is_utf8
is_utf8_ascii [] h = refl
is_utf8_ascii (c ∷ xs) h =
    let e : utf8_step utf8_start c ≡ some utf8_start =
      unfold utf8_step utf8_first in ground arith in
    rw (e, utf8_run) (is_utf8_ascii xs h.1)

pub read_line-append :
    (limit : ℕ) (xs rest : Bytes)
    → All (λ c. c ≢ b'\n') xs
    → suc (length xs) ≤ limit
    → read_line limit (xs ++ (b'\n' ∷ rest)) ≡ (xs ++ (b'\n' ∷ []), rest)
unfolding read_line
read_line-append zero xs rest h k = absurd (omega arith)
read_line-append (suc limit) [] rest h k = refl
read_line-append (suc limit) (c ∷ xs) rest h k =
    let e : (c == b'\n') ≡ false = ground arith in
    rw (e, read_line-append limit xs rest h.1 (omega arith)) refl

trim_end_blank : (xs ys : Bytes) → trim_end ys ≡ [] → trim_end (xs ++ ys) ≡ trim_end xs
unfolding trim_end
trim_end_blank [] ys h = h
trim_end_blank (c ∷ xs) ys h = ap (keep_blank c) (trim_end_blank xs ys h)

trim_end_kept :
    (xs : Bytes) (y : ℕ) (ys : Bytes)
    → trim_end (y ∷ ys) ≡ y ∷ ys
    → trim_end (xs ++ (y ∷ ys)) ≡ xs ++ (y ∷ ys)
unfolding trim_end
trim_end_kept [] y ys h = h
trim_end_kept (c ∷ []) y ys h = ap (keep_blank c) h
trim_end_kept (c ∷ d ∷ xs) y ys h = ap (keep_blank c) (trim_end_kept (d ∷ xs) y ys h)

pub split_once-append :
    (key after : Bytes)
    → All IsKeyByte key
    → split_once b':' (key ++ (b':' ∷ after)) ≡ some (key, after)
unfolding split_once
split_once-append [] after h = refl
split_once-append (c ∷ key) after h =
    let e : (c == b':') ≡ false = ground arith in
    rw (e, split_once-append key after h.1, split_once) refl

-- A line `key: value` is taken apart at its colon, and the blanks round the value are gone.
pub split_line :
    (key value : Bytes)
    → All IsKeyByte key
    → IsText value
    → (after : Bytes) × (trim_end ((key ++ (b':' ∷ b' ' ∷ value)) ++ (b'\n' ∷ []))
        ≡ key ++ (b':' ∷ after))
      × (trim_start after ≡ value)
split_line key [] h t = (
  [],
  trim_end_blank (key ++ (b':' ∷ b' ' ∷ [])) (b'\n' ∷ []) (unfold trim_end in refl)
      ∙ ap trim_end (sym (append_assoc key (b':' ∷ []) (b' ' ∷ [])))
      ∙ trim_end_blank (key ++ (b':' ∷ [])) (b' ' ∷ []) (unfold trim_end in refl)
      ∙ trim_end_kept key b':' [] (unfold trim_end in refl),
  unfold trim_start in refl,
)
split_line key (v ∷ vs) h t = (
  b' ' ∷ v ∷ vs,
  trim_end_blank (key ++ (b':' ∷ b' ' ∷ v ∷ vs)) (b'\n' ∷ []) (unfold trim_end in refl)
      ∙ ap trim_end (sym (append_assoc key (b':' ∷ b' ' ∷ []) (v ∷ vs)))
      ∙ trim_end_kept (key ++ (b':' ∷ b' ' ∷ [])) v vs t.trimmed_end
      ∙ append_assoc key (b':' ∷ b' ' ∷ []) (v ∷ vs),
  unfold trim_start in t.trimmed_start,
)
