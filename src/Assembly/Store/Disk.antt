-- ===== src/Assembly/Store/Disk.antt =====
-- One write to the temporary file, as a step of the store.
use native.Mathlib.Decide.{ℕ_discrete}
use zsync_rs.Prelude.{
  ℕ, zero, suc, ◌+◌, ◌-◌, ◌*◌, ◌≤◌, ◌<◌, ◌≡◌, ◌≢◌, refl, sym, ap, ap₂, ◌∙◌, inl, inr, arith, Bool,
  true, false, [], ◌∷◌, ◌++◌, length, get_or, replicate, ltb, leb, ◌==◌, ◌&&◌, if◌then◌else◌, some,
  none, Bool-cases, length-append, length-replicate, get_or-replicate, ==_refl, ==_of_ne,
}
use zsync_rs.Control.{Bytes}
use zsync_rs.Assembly.{write_at}
use zsync_rs.Assembly.Write.{get_or-write_at, get_or-append, get_or-past}
use mathlib.Core.Path.{fun_ext}
use zsync_rs.Matcher.{BlockMatcher}
use zsync_rs.Assembly.Store.{Store, put, bytes_from, held, IsBlank, IsBlock, Learns, learn}

pub bytes_from_eq :
    (content xs : Bytes) (start n : ℕ)
    → length xs ≡ n
    → ((i : ℕ) → i < n → get_or content (start + i) 0 ≡ get_or xs i 0)
    → bytes_from content start n ≡ xs
unfolding bytes_from
bytes_from_eq content [] start zero h same = refl
bytes_from_eq content (x ∷ xs) start zero h same = absurd (omega (arith, h))
bytes_from_eq content [] start (suc n) h same = absurd (omega (arith, h))
bytes_from_eq content (x ∷ xs) start (suc n) h same =
    ap₂ ◌∷◌ (ap (λ k. get_or content k 0) (omega arith) ∙ same 0 (omega arith)) (
      bytes_from_eq content xs (start + 1) n (omega (arith, h)) (λ i below.
        ap (λ k. get_or content k 0) (omega arith) ∙ same (suc i) (omega (arith, below))))

pub bytes_from_ext :
    (content content' : Bytes) (start n : ℕ)
    → ((i : ℕ) → i < n → get_or content (start + i) 0 ≡ get_or content' (start + i) 0)
    → bytes_from content start n ≡ bytes_from content' start n
unfolding bytes_from
bytes_from_ext content content' start zero same = refl
bytes_from_ext content content' start (suc n) same =
    ap₂ ◌∷◌
      (ap (λ k. get_or content k 0) (omega arith)
        ∙ same 0 (omega arith)
        ∙ ap (λ k. get_or content' k 0) (omega arith))
      (bytes_from_ext content content' (start + 1) n (λ i below.
        ap (λ k. get_or content k 0) (omega arith)
        ∙ same (suc i) (omega (arith, below))
        ∙ ap (λ k. get_or content' k 0) (omega arith)))

next_block : (j id size : ℕ) → j < id → j * size + size ≤ id * size
next_block j id size h = grind arith

-- Blocks do not overlap.
apart :
    (id j size i len : ℕ)
    → id ≢ j
    → i < size
    → len ≤ size
    → (leb (id * size) (j * size + i) && ltb (j * size + i) (id * size + len)) ≡ false
apart id j size i len ne below short = elim (Bool-cases (ltb j id)) [
  | inl less ↦
      let before : j * size + size ≤ id * size = next_block j id size (ground arith) in ground arith
  | inr more ↦
      let behind : id * size + size ≤ j * size = next_block id j size (ground arith) in ground arith
]

module _ (content : Bytes) (id size : ℕ) (block : Bytes) (short : length block ≤ size) where
  pub get_or-write_block_ne :
      (j i : ℕ)
      → id ≢ j
      → i < size
      → get_or (write_at content (id * size) block) (j * size + i) 0
        ≡ get_or content (j * size + i) 0
  get_or-write_block_ne j i ne below =
      get_or-write_at content (id * size) block (j * size + i)
      ∙ (rw (apart id j size i (length block) ne below short))

  get_or-write_block_self :
      (i : ℕ)
      → ((k : ℕ) → length block ≤ k → k < size → get_or content (id * size + k) 0 ≡ 0)
      → i < size
      → get_or (write_at content (id * size) block) (id * size + i) 0 ≡ get_or block i 0
  get_or-write_block_self i blank below =
      get_or-write_at content (id * size) block (id * size + i)
      ∙ elim (Bool-cases (ltb i (length block))) [
        | inl inside ↦
            let a : leb (id * size) (id * size + i) ≡ true = ground arith in
            let b : ltb (id * size + i) (id * size + length block) ≡ true = ground arith in
            let e : id * size + i - id * size ≡ i = omega arith in rw (a, b, e) refl
        | inr outside ↦
            let b : ltb (id * size + i) (id * size + length block) ≡ false = ground arith in
            let a : leb (id * size) (id * size + i) ≡ true = ground arith in
            rw (a, b) (blank i (ground arith) below ∙ sym (get_or-past block i (ground arith)))
      ]

  -- A block that is not known, written over zeros, is one more block of the store.
  pub held-write_at :
      (known known' : ℕ → Bool)
      → ((k : ℕ) → length block ≤ k → k < size → get_or content (id * size + k) 0 ≡ 0)
      → ((j : ℕ) → known' j ≡ (if id == j then true else known j))
      → (j : ℕ)
      → held known' (write_at content (id * size) block) size j
        ≡ put id (block ++ replicate (size - length block) 0) (held known content size) j
  held-write_at known known' blank grown j = elim (ℕ_discrete id j) [
    | yes same ↦
        rw (← same, grown id, ==_refl id)
          (ap some (
            bytes_from_eq (write_at content (id * size) block) padded (id * size) size padded_length
              (λ i below. get_or-write_block_self i blank below ∙ sym (padding i))))
    | no other ↦
        rw (grown j, ==_of_ne id j other)
          (ap (λ bytes. if known j then some bytes else none)
            (bytes_from_ext (write_at content (id * size) block) content (j * size) size
              (λ i below. get_or-write_block_ne j i other below)))
  ]
    where
      padded : Bytes
      padded = block ++ replicate (size - length block) 0

      padded_length : length padded ≡ size
      padded_length = omega (
        arith,
        length-append block (replicate (size - length block) 0),
        length-replicate {A = ℕ} (size - length block) 0,
      )

      padding : (i : ℕ) → get_or padded i 0 ≡ get_or block i 0
      padding i =
          get_or-append block (replicate (size - length block) 0) i
          ∙ elim (Bool-cases (ltb i (length block))) [
            | inl inside ↦ rw inside refl
            | inr outside ↦ rw outside (
                get_or-replicate (size - length block) 0 (i - length block)
                ∙ sym (get_or-past block i (ground arith)))
          ]

  -- The blocks that are still missing stay blank.
  pub IsBlank-write_at :
      (known known' : ℕ → Bool) (total : ℕ)
      → ((j : ℕ) → known' j ≡ (if id == j then true else known j))
      → IsBlank known total content size
      → IsBlank known' total (write_at content (id * size) block) size
  IsBlank-write_at known known' total grown blank j inside missing i below =
      elim (ℕ_discrete id j) [
        | yes same ↦ cc (rw (grown j, same, ==_refl j) at missing)
        | no other ↦
            get_or-write_block_ne j i other below
            ∙ blank j inside (rw (grown j, ==_of_ne id j other) at missing) i below
      ]

-- A step to a store that is given element by element.
pub learn_at :
    (md4 : Bytes → Bytes) (m : BlockMatcher) (before store store' : Store) (id : ℕ) (block : Bytes)
    → Learns md4 m before store
    → store id ≡ none
    → IsBlock md4 m id block
    → ((j : ℕ) → store' j ≡ put id block store j)
    → Learns md4 m before store'
learn_at md4 m before store store' id block past missing whole e =
    rw (fun_ext e) (learn id block past missing whole)
