-- ===== src/Control/Header/Sound.antt =====
-- What `parse` of src/control.rs has checked when it returns a control file.
use mathlib.Core.Path.{subst}
use zsync_rs.Prelude.{
  ℕ, ◌-◌, ◌^◌, ◌≤◌, ◌≡◌, refl, ap, arith, inl, inr, Bool, true, false, List, [], ◌∷◌, ◌++◌, length,
  ◌==◌, bytes_eq, codes, Bool-cases, Option, none, some, Option-cases, OptionHolds, &&_both, leb→le,
  if◌then◌else◌,
}
use zsync_rs.Control.{Bytes, HashLengths, max_blocksize, ParseError}
use zsync_rs.Control.Text.{trim_start, split_once, split}
use zsync_rs.Control.Decimal.{parse_uint}
use zsync_rs.Control.Decimal.Trip.{parse_uint_bound}
use zsync_rs.Control.Generate.{is_power_of_two}
use zsync_rs.Control.Records.Trip.{IsAccepted}
use zsync_rs.Control.Header.{
  Result, ok, err, ◌>>=◌, ok_or, ensure, Header, is_accepted, parse_lengths, parse_blocksize,
  apply_field, apply_line, no_header,
}

-- A predicate of the value of a result; nothing is asked of an error.
pub record ResultHolds {A : Type 0} (P : A → Type 0) (r : Result A) : Type 0 where
  pub value_holds : (a : A) → r ≡ ok a → P a

value_of : {A : Type 0} → A → Result A → A
value_of a (ok b) = b
value_of a (err e) = a

pub holds_ok : {A : Type 0} {P : A → Type 0} {a : A} → P a → ResultHolds P (ok a)
unfolding value_of
holds_ok {P = P} {a = a} h = record { value_holds = λ b e. subst P (ap (value_of a) e) h }

pub holds_err : {A : Type 0} {P : A → Type 0} {e : ParseError} → ResultHolds P (err e)
holds_err = record { value_holds = λ b h. absurd (cc h) }

pub holds_if :
    {A : Type 0} {P : A → Type 0} {x y : Result A} (t : Bool)
    → ResultHolds P x
    → ResultHolds P y
    → ResultHolds P (if t then x else y)
holds_if true h k = h
holds_if false h k = k

pub holds_bind :
    {A B : Type 0} {P : A → Type 0} {Q : B → Type 0} {r : Result A} {f : A → Result B}
    → ResultHolds P r
    → ((a : A) → P a → ResultHolds Q (f a))
    → ResultHolds Q (r >>= f)
holds_bind {r = ok a} h k = k a (h.value_holds a refl)
holds_bind {r = err e} h k = holds_err

pub holds_ensure :
    {A : Type 0} {P : A → Type 0} {r : Result A} (b : Bool) (e : ParseError)
    → (b ≡ true → ResultHolds P r)
    → ResultHolds P (ensure b e >>= λ _. r)
holds_ensure true e h = h refl
holds_ensure false e h = holds_err

pub holds_ok_or :
    {A : Type 0} (o : Option A) (e : ParseError) → ResultHolds (λ a. o ≡ some a) (ok_or o e)
holds_ok_or none e = holds_err
holds_ok_or (some a) e = holds_ok refl

number_holds :
    (max : ℕ) (s : Bytes) (e : ParseError) → ResultHolds (λ n. n ≤ max) (ok_or (parse_uint max s) e)
number_holds max s e = elim (Option-cases (parse_uint max s)) [
  | inl bad ↦ rw bad holds_err
  | inr (n, good) ↦ rw good (holds_ok (parse_uint_bound max n s good))
]

is_accepted_sound : (lengths : HashLengths) → is_accepted lengths ≡ true → IsAccepted lengths
unfolding is_accepted
is_accepted_sound lengths h = record {
  seq_range = (ground arith, ground arith);
  rsum_range = (ground arith, ground arith);
  checksum_range = (ground arith, ground arith);
}

IsAccepted-holds :
    (lengths : HashLengths) (e : ParseError)
    → ResultHolds IsAccepted (ensure (is_accepted lengths) e >>= λ _. ok lengths)
IsAccepted-holds lengths e = holds_ensure _ e (λ good. holds_ok (is_accepted_sound lengths good))

parse_lengths-holds :
    (value : Bytes) (parts : List Bytes) → ResultHolds IsAccepted (parse_lengths value parts)
unfolding parse_lengths
parse_lengths-holds value [] = holds_err
parse_lengths-holds value (a ∷ []) = holds_err
parse_lengths-holds value (a ∷ b ∷ []) = holds_err
parse_lengths-holds value (a ∷ b ∷ c ∷ d ∷ rest) = holds_err
parse_lengths-holds value (a ∷ b ∷ c ∷ []) = holds_bind (number_holds _ _ _) (λ x _.
    holds_bind (number_holds _ _ _) (λ y _. holds_bind (number_holds _ _ _) (λ z _.
      IsAccepted-holds (record { seq_matches = x; rsum_bytes = y; checksum_bytes = z })
        (ParseError.invalid_hash_lengths value))))

abbrev pub IsBlocksize : ℕ → Type 0
IsBlocksize bs = (is_power_of_two 64 bs ≡ true) × (bs ≤ max_blocksize)

parse_blocksize-holds : (value : Bytes) → ResultHolds IsBlocksize (parse_blocksize value)
unfolding parse_blocksize
parse_blocksize-holds value = holds_bind (number_holds _ _ _) (λ bs _. holds_ensure _ _ (λ good.
    let (power, fits) = &&_both _ _ good in holds_ok (power, leb→le bs max_blocksize fits)))

-- What holds of the variables of the header loop in every round.
abbrev pub IsSound : Header → Type 0
IsSound h =
    OptionHolds IsBlocksize h.blocksize
    × OptionHolds (λ n. n ≤ 2 ^ 64 - 1) h.file_length
    × IsAccepted h.hash_lengths
    × OptionHolds (λ v. length v ≡ 40) h.sha1

pub no_header-IsSound : IsSound no_header
no_header-IsSound = (tt, tt, is_accepted_sound _ (unfold is_accepted in refl), tt)

sha1-holds :
    (value : Bytes) (h : Header) (e : ParseError)
    → IsSound h
    → ResultHolds IsSound
        (if length value == 40 then ok (record h { sha1 = some value }) else err e)
sha1-holds value h e s = elim (Bool-cases (length value == 40)) [
  | inl right ↦
      rw right (holds_ok {a = record h { sha1 = some value }} (s.0, s.1, s.2, ground arith))
  | inr wrong ↦ rw wrong holds_err
]

blocksize-holds :
    (value : Bytes) (h : Header)
    → IsSound h
    → ResultHolds IsSound (parse_blocksize value >>= λ bs. ok (record h { blocksize = some bs }))
blocksize-holds value h s =
    holds_bind (parse_blocksize-holds value)
      (λ bs good. holds_ok {a = record h { blocksize = some bs }} (good, s.1, s.2, s.3))

length-holds :
    (value : Bytes) (h : Header)
    → IsSound h
    → ResultHolds IsSound (
        ok_or (parse_uint (2 ^ 64 - 1) value) (ParseError.invalid_length value) >>= λ n.
        ok (record h { file_length = some n }))
length-holds value h s =
    holds_bind (number_holds (2 ^ 64 - 1) value (ParseError.invalid_length value))
      (λ n good. holds_ok {a = record h { file_length = some n }} (s.0, good, s.2, s.3))

lengths-holds :
    (value : Bytes) (h : Header)
    → IsSound h
    → ResultHolds IsSound
        (parse_lengths value (split b',' value) >>= λ l. ok (record h { hash_lengths = l }))
lengths-holds value h s =
    holds_bind (parse_lengths-holds value (split b',' value))
      (λ l good. holds_ok {a = record h { hash_lengths = l }} (s.0, s.1, good, s.3))

apply_field-holds :
    (key value : Bytes) (h : Header) → IsSound h → ResultHolds IsSound (apply_field key value h)
unfolding apply_field
apply_field-holds key value h s =
    holds_if (bytes_eq key (codes "zsync")) (holds_ok {a = record h { version = value }} s) (
      holds_if (bytes_eq key (codes "Filename"))
        (holds_ok {a = record h { filename = some value }} s)
        (holds_if (bytes_eq key (codes "MTime")) (holds_ok {a = record h { mtime = some value }} s)
          (holds_if (bytes_eq key (codes "Blocksize")) (blocksize-holds value h s) (
            holds_if (bytes_eq key (codes "Length")) (length-holds value h s) (
              holds_if (bytes_eq key (codes "URL"))
                (holds_ok {a = record h { urls = h.urls ++ (value ∷ []) }} s)
                (holds_if (bytes_eq key (codes "Hash-Lengths")) (lengths-holds value h s) (
                  holds_if (bytes_eq key (codes "SHA-1")) (sha1-holds value h _ s)
                    (holds_ok s))))))))

pub apply_line-holds :
    (trimmed : Bytes) (h : Header) → IsSound h → ResultHolds IsSound (apply_line trimmed h)
unfolding apply_line
apply_line-holds trimmed h s =
    holds_bind {f = λ p. apply_field p.0 (trim_start p.1) h}
      (holds_ok_or (split_once b':' trimmed) (ParseError.invalid_header trimmed))
      (λ p e. apply_field-holds p.0 (trim_start p.1) h s)
