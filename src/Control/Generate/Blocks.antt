-- ===== src/Control/Generate/Blocks.antt =====
-- The blocks that `generate` checksums, and the matcher of the control file that it makes.
use native.Mathlib.Nat.{
  div-mul-le_self, lt-div-mul-add, mul-add-mod_self_right, mod-eq_of_lt, mod_self,
}
use zsync_rs.Prelude.{
  ℕ, zero, suc, ◌+◌, ◌-◌, ◌*◌, ◌%◌, [], ◌∷◌, ◌++◌, take, drop, length-drop, ◌≤◌, ◌<◌, ◌≡◌, ◌⊎◌, inl,
  inr, refl, sym, ap, ◌∙◌, arith,
}
use zsync_rs.Prelude.{
  true, false, length, get_or, slice, replicate, ◌==◌, ==_iff, ltb, ltb→lt, Bool-cases, ltb→ge,
  Option, none, some, length-append, length-replicate, length-slice,
}
use zsync_rs.Control.{Bytes, max_blocksize, BlockChecksum, ControlFile}
use zsync_rs.Control.Generate.{
  Logarithms, Generated, generate, control_of, count_blocks, block_len, padded_block,
  checksum_block, checksum_blocks, is_power_of_two, auto_blocksize,
}

take-past : (n : ℕ) (xs : Bytes) → length xs ≤ n → take n xs ≡ xs
take-past zero [] h = refl
take-past zero (x ∷ xs) h = absurd (omega arith)
take-past (suc n) [] h = refl
take-past (suc n) (x ∷ xs) h = ap (λ t. x ∷ t) (take-past n xs (omega arith))

module _ (input : Bytes) (blocksize : ℕ) (size : 1 ≤ blocksize) where
  scaled : (a b : ℕ) → a ≤ b → a * blocksize ≤ b * blocksize
  scaled a b h = grind arith

  row : (i : ℕ) → (i + 1) * blocksize ≡ i * blocksize + blocksize
  row i = grind arith

  -- The bytes of a block lie in the input, and a block is never longer than the block size. It is
  -- shorter only at the end of the input.
  block_len-fits :
      (i : ℕ)
      → i < count_blocks input blocksize
      → (i * blocksize + block_len input blocksize i ≤ length input)
        × (block_len input blocksize i ≤ blocksize)
        × ((block_len input blocksize i ≡ blocksize)
            ⊎ (i * blocksize + block_len input blocksize i ≡ length input))
  block_len-fits i h = elim (Bool-cases (i == count - 1)) [
    | inl last ↦ rw last (elim (rest-cases ((==_iff i (count - 1)).0 last)) [
      | inl (some_bytes, short, total, rem) ↦
          let nonzero : (length input % blocksize == 0) ≡ false = ground (arith, rem, some_bytes) in
          rw nonzero
            (omega (arith, rem, total), omega (arith, rem, short), inr (omega (arith, rem, total)))
      | inr (full, rem) ↦
          let is_zero : (length input % blocksize == 0) ≡ true = ground (arith, rem) in
          rw is_zero (omega (arith, full), omega arith, inl refl)
    ])
    | inr inner ↦ rw inner (
        let two : (i + 2) * blocksize ≤ count * blocksize = scaled (i + 2) count (ground arith) in
        (grind arith, omega arith, inl refl))
  ]
    where
      count : ℕ
      count = count_blocks input blocksize

      all : count * blocksize ≤ length input + (blocksize - 1)
      all = div-mul-le_self (length input + (blocksize - 1)) blocksize

      -- The bytes of the last block, and the remainder of the length.
      last_bytes : ℕ
      last_bytes = length input - i * blocksize

      rest-cases :
          i ≡ count - 1
          → ((1 ≤ last_bytes)
              × (last_bytes < blocksize)
              × (i * blocksize + last_bytes ≡ length input)
              × (length input % blocksize ≡ last_bytes))
            ⊎ ((i * blocksize + blocksize ≡ length input) × (length input % blocksize ≡ 0))
      rest-cases e = elim (Bool-cases (ltb last_bytes blocksize)) [
        | inl short ↦ inl (
          around.0,
          ltb→lt _ _ short,
          around.2,
          ap (λ l. l % blocksize) (sym around.2)
              ∙ mul-add-mod_self_right i blocksize last_bytes
              ∙ mod-eq_of_lt (ltb→lt _ _ short),
        )
        | inr full ↦
            let exact : i * blocksize + blocksize ≡ length input = ground (arith, around) in
            inr (
              exact,
              ap (λ l. l % blocksize) (sym exact)
                  ∙ mul-add-mod_self_right i blocksize blocksize
                  ∙ mod_self blocksize,
            )
      ]
        where
          around :
              (1 ≤ last_bytes)
              × (last_bytes ≤ blocksize)
              × (i * blocksize + last_bytes ≡ length input)
          around =
              let step : count * blocksize ≡ i * blocksize + blocksize =
                ap (λ c. c * blocksize) (omega (arith, e, h)) ∙ row i in
              let above =
                lt-div-mul-add {a = length input + (blocksize - 1)} {b = blocksize} size in
              (
                omega (arith, step, all, size),
                omega (arith, step, above),
                omega (arith, step, all, size),
              )

  pub length-padded_block :
      (i : ℕ)
      → i < count_blocks input blocksize
      → length (padded_block input blocksize i) ≡ blocksize
  unfolding padded_block
  length-padded_block i h =
      let (inside, short, _) = block_len-fits i h in
      let n = block_len input blocksize i in
      omega (
        arith,
        length-append (slice input (i * blocksize) (i * blocksize + n))
            (replicate (blocksize - n) 0),
        length-slice (i * blocksize) n input inside,
        length-replicate {A = ℕ} (blocksize - n) 0,
        short,
      )

  -- A block is its row of the input, filled up with zeros.
  pub padded_block-slice :
      (i : ℕ)
      → i < count_blocks input blocksize
      → let row = slice input (i * blocksize) ((i + 1) * blocksize) in
        padded_block input blocksize i ≡ row ++ replicate (blocksize - length row) 0
  unfolding padded_block
  padded_block-slice i h =
      let (inside, short, ends) = block_len-fits i h in
      let n = block_len input blocksize i in
      let same : slice input (i * blocksize) (i * blocksize + n) ≡ whole_row = elim ends [
        | inl full ↦ rw (full, row i) refl
        | inr last ↦
            let left : length (drop (i * blocksize) input) ≡ n =
              omega (arith, length-drop (i * blocksize) input, last) in
            take-past (i * blocksize + n - i * blocksize) _ (omega (arith, left))
            ∙ sym (
                take-past ((i + 1) * blocksize - i * blocksize) _
                  (omega (arith, left, short, row i)))
      ] in
      let size_of : length whole_row ≡ n =
        ap length (sym same) ∙ length-slice (i * blocksize) n input inside in
      rw (size_of, same) refl
    where
      whole_row : Bytes
      whole_row = slice input (i * blocksize) ((i + 1) * blocksize)

module _ (md4 sha1 : Bytes → Bytes) (logs : Logarithms) where
  -- The record of each block.
  pub get_or-checksum_blocks :
      (input : Bytes) (blocksize start rounds i : ℕ) (d : BlockChecksum)
      → i < rounds
      → get_or (checksum_blocks md4 sha1 logs input blocksize start rounds) i d
        ≡ checksum_block md4 sha1 logs (padded_block input blocksize (start + i))
  unfolding checksum_blocks
  get_or-checksum_blocks input blocksize start zero i d h = absurd (omega arith)
  get_or-checksum_blocks input blocksize start (suc rounds) zero d h =
      let e : start + 0 ≡ start = omega arith in rw e refl
  get_or-checksum_blocks input blocksize start (suc rounds) (suc i) d h =
      let e : start + suc i ≡ start + 1 + i = omega arith in
      rw e (get_or-checksum_blocks input blocksize (start + 1) rounds i d (omega arith))

  pub length-checksum_blocks :
      (input : Bytes) (blocksize start rounds : ℕ)
      → length (checksum_blocks md4 sha1 logs input blocksize start rounds) ≡ rounds
  unfolding checksum_blocks
  length-checksum_blocks input blocksize start zero = refl
  length-checksum_blocks input blocksize start (suc rounds) =
      ap suc (length-checksum_blocks input blocksize (start + 1) rounds)

pub is_power_of_two_positive : (bits n : ℕ) → is_power_of_two bits n ≡ true → 1 ≤ n
unfolding is_power_of_two
is_power_of_two_positive zero n h = cc
is_power_of_two_positive (suc bits) n h = ground arith

IsOf : Generated → ControlFile → Type 0
IsOf (Generated.ok control') control = control ≡ control'
IsOf Generated.empty_file control = ⊥
IsOf Generated.invalid_blocksize control = ⊥

ok-IsOf : (g : Generated) (control : ControlFile) → g ≡ Generated.ok control → IsOf g control
unfolding IsOf
ok-IsOf g control h = rw h refl

module _ (md4 sha1 : Bytes → Bytes) (logs : Logarithms) where
  -- The block size of a control file that is generated.
  pub generate-control_of :
      (input filename url : Bytes) (requested : Option ℕ) (control : ControlFile)
      → generate md4 sha1 logs input filename url requested ≡ Generated.ok control
      → (blocksize : ℕ) × (1 ≤ blocksize)
        × (is_power_of_two 64 blocksize ≡ true)
        × (blocksize ≤ max_blocksize)
        × (control ≡ control_of md4 sha1 logs input filename url blocksize)
  unfolding generate IsOf
  generate-control_of input filename url requested control h =
      elim (Bool-cases (length input == 0)) [
        | inl empty ↦ absurd (ok-IsOf _ control (rw empty at h))
        | inr some_bytes ↦ elim (Bool-cases (is_power_of_two 64 size)) [
          | inr odd ↦ absurd (ok-IsOf _ control (rw (some_bytes, odd) at h))
          | inl power ↦ elim (Bool-cases (ltb max_blocksize size)) [
            | inl large ↦ absurd (ok-IsOf _ control (rw (some_bytes, power, large) at h))
            | inr fits ↦ (
              size,
              is_power_of_two_positive 64 size power,
              power,
              ltb→ge max_blocksize size fits,
              ok-IsOf _ control (rw (some_bytes, power, fits) at h),
            )
          ]
        ]
      ]
    where
      size : ℕ
      size = elim requested [ none ↦ auto_blocksize (length input) | some n ↦ n ]
