-- ===== src/Assembly/Write.antt =====
-- `write_at_offset` of src/assembly.rs, byte by byte.
use zsync_rs.Prelude.{
  ℕ, zero, suc, ◌+◌, ◌-◌, ◌≤◌, ◌<◌, ◌≡◌, inl, inr, refl, sym, ap, min, ◌∙◌, arith, [], ◌∷◌, ◌++◌,
  true, false, Bool-cases,
}
use zsync_rs.Prelude.{
  length, get_or, take, drop, replicate, ltb, leb, ◌&&◌, if◌then◌else◌, get_or-drop,
  get_or-replicate, length-take, length-replicate,
}
use zsync_rs.Control.{Bytes}
use zsync_rs.Assembly.{write_at}

pub get_or-append :
    (xs ys : Bytes) (i : ℕ)
    → get_or (xs ++ ys) i 0
      ≡ (if ltb i (length xs) then get_or xs i 0 else get_or ys (i - length xs) 0)
get_or-append [] ys i = ground arith
get_or-append (x ∷ xs) ys zero = ground arith
get_or-append (x ∷ xs) ys (suc i) = ground (arith, get_or-append xs ys i)

pub get_or-take : (n : ℕ) (xs : Bytes) (i : ℕ) → i < n → get_or (take n xs) i 0 ≡ get_or xs i 0
get_or-take zero xs i h = absurd (omega arith)
get_or-take (suc n) [] i h = refl
get_or-take (suc n) (x ∷ xs) zero h = refl
get_or-take (suc n) (x ∷ xs) (suc i) h = get_or-take n xs i (omega arith)

pub get_or-past : (xs : Bytes) (i : ℕ) → length xs ≤ i → get_or xs i 0 ≡ 0
get_or-past [] i h = refl
get_or-past (x ∷ xs) zero h = absurd (omega arith)
get_or-past (x ∷ xs) (suc i) h = get_or-past xs i (omega arith)

-- After a write, the bytes from the offset on are those written, and every other byte is what it was,
-- where a byte past the end of the file counts as zero.
pub get_or-write_at :
    (content : Bytes) (offset : ℕ) (bytes : Bytes) (i : ℕ)
    → get_or (write_at content offset bytes) i 0 ≡ (
        if leb offset i && ltb i (offset + length bytes)
        then get_or bytes (i - offset) 0
        else get_or content i 0)
unfolding write_at
get_or-write_at content offset bytes i = read_parts ∙ regions
  where
    front : Bytes
    front = take offset content

    gap : Bytes
    gap = replicate (offset - length content) 0

    back : Bytes
    back = drop (offset + length bytes) content

    front_length : length front ≡ min offset (length content)
    front_length = length-take offset content

    gap_length : length gap ≡ offset - length content
    gap_length = length-replicate {A = ℕ} (offset - length content) 0

    read_parts : get_or (front ++ (gap ++ (bytes ++ back))) i 0 ≡ (
        if ltb i (length front)
        then get_or front i 0
        else if ltb (i - length front) (length gap)
        then get_or gap (i - length front) 0
        else if ltb (i - length front - length gap) (length bytes)
        then get_or bytes (i - length front - length gap) 0
        else get_or back (i - length front - length gap - length bytes) 0)
    read_parts =
        get_or-append front (gap ++ (bytes ++ back)) i
        ∙ ap (λ t. if ltb i (length front) then get_or front i 0 else t)
            (get_or-append gap (bytes ++ back) (i - length front)
              ∙ ap
                  (λ t.
                    if ltb (i - length front) (length gap)
                    then get_or gap (i - length front) 0
                    else t)
                  (get_or-append bytes back (i - length front - length gap)))

    before : i < offset → get_or front i 0 ≡ get_or content i 0
    before h = get_or-take offset content i h

    in_gap : get_or gap (i - length front) 0 ≡ 0
    in_gap = get_or-replicate (offset - length content) 0 (i - length front)

    past : length content ≤ i → get_or content i 0 ≡ 0
    past h = get_or-past content i h

    behind :
        (j : ℕ)
        → offset + length bytes ≤ i
        → j ≡ i - (offset + length bytes)
        → get_or back j 0 ≡ get_or content i 0
    behind j h e =
        get_or-drop 0 (offset + length bytes) j content
        ∙ ap (λ k. get_or content k 0) (omega (arith, h, e))

    regions :
        (if ltb i (length front)
          then get_or front i 0
          else if ltb (i - length front) (length gap)
          then get_or gap (i - length front) 0
          else if ltb (i - length front - length gap) (length bytes)
          then get_or bytes (i - length front - length gap) 0
          else get_or back (i - length front - length gap - length bytes) 0)
        ≡ (if leb offset i && ltb i (offset + length bytes)
            then get_or bytes (i - offset) 0
            else get_or content i 0)
    regions = elim (Bool-cases (leb offset i)) [
      | inr early ↦ elim (Bool-cases (ltb i (length front))) [
        | inl held ↦ rw (early, held) (before (ground arith))
        | inr missing ↦
            let here : ltb (i - length front) (length gap) ≡ true =
              ground (arith, front_length, gap_length) in
            rw (early, missing, here) (in_gap ∙ sym (past (ground (arith, front_length))))
      ]
      | inl late ↦
          let a : ltb i (length front) ≡ false = ground (arith, front_length) in
          let b : ltb (i - length front) (length gap) ≡ false =
            ground (arith, front_length, gap_length) in
          let c : i - length front - length gap ≡ i - offset =
            ground (arith, front_length, gap_length) in
          elim (Bool-cases (ltb i (offset + length bytes))) [
            | inl written ↦
                let d : ltb (i - offset) (length bytes) ≡ true = ground arith in
                rw (late, written, a, b, c, d) refl
            | inr after ↦
                let d : ltb (i - offset) (length bytes) ≡ false = ground arith in
                rw (late, after, a, b, c, d) (behind _ (ground arith) (ground arith))
          ]
    ]
