-- ===== src/Assembly/Store/Output.antt =====
-- What the store says of the output of `complete` in src/assembly.rs.
use native.Mathlib.Decide.{ℕ_discrete}
use zsync_rs.Prelude.{
  ℕ, zero, suc, ◌+◌, ◌-◌, ◌*◌, ◌<◌, ◌≡◌, refl, sym, ap, ◌∙◌, arith, inl, inr, Bool, true, false,
  List, [], ◌∷◌, length, take, get_or, replicate, ltb, lt→ltb, some, Bool-cases, length-take,
  get_or-replicate, ==_of_ne, ==_refl,
}
use zsync_rs.Control.{Bytes, ControlFile}
use zsync_rs.Matcher.{BlockMatcher, is_block_known, is_complete, total_blocks}
use zsync_rs.Matcher.Known.{IsValid, count_known, count_known-full}
use zsync_rs.Assembly.{ZsyncAssembly, opened}
use zsync_rs.Assembly.Write.{get_or-append, get_or-take, get_or-past}
use zsync_rs.Assembly.Complete.{set_len}
use zsync_rs.Assembly.Store.{Store, IsBlock, Learns, nothing, learn, bytes_from, Implements}

module _ (md4 : Bytes → Bytes) (m : BlockMatcher) where
  -- Every block of a store is a block of the target.
  abbrev pub AreBlocks : Store → Type 0
  AreBlocks store = (id : ℕ) (block : Bytes) → store id ≡ some block → IsBlock md4 m id block

  pub Learns-AreBlocks :
      (before : Store) {after : Store}
      → AreBlocks before
      → Learns md4 m before after
      → AreBlocks after
  Learns-AreBlocks before h nothing j other e = h j other e
  Learns-AreBlocks before h (learn {store} id block past missing whole) j other e =
      elim (ℕ_discrete id j) [
        | yes same ↦
            let e' : some block ≡ some other = rw (← same, ==_refl id) at e in
            let e'' : block ≡ other = cc e' in rw (← same, ← e'') whole
        | no differs ↦ Learns-AreBlocks before h past j other (rw (==_of_ne id j differs) at e)
      ]

  -- No step touches a block that is there.
  pub Learns-mono :
      (before : Store) {after : Store} (id : ℕ) (block : Bytes)
      → before id ≡ some block
      → Learns md4 m before after
      → after id ≡ some block
  Learns-mono before id block h nothing = h
  Learns-mono before id block h (learn {store} j other past missing whole) =
      elim (ℕ_discrete j id) [
        | yes same ↦ cc (Learns-mono before id block h past, missing, same)
        | no differs ↦ rw (==_of_ne j id differs) (Learns-mono before id block h past)
      ]

  -- Each block of the target lies in the output as far as the target reaches, at its place, and its
  -- bytes there are those of a block with the digest of the control file.
  abbrev pub IsAssembled : ℕ → Bytes → Type 0
  IsAssembled file_length out =
      (id : ℕ)
      → id < length m.targets
      → (block : Bytes) × IsBlock md4 m id block
        × ((i : ℕ)
            → i < m.blocksize
            → id * m.blocksize + i < file_length
            → get_or out (id * m.blocksize + i) 0 ≡ get_or block i 0)

get_or-bytes_from :
    (content : Bytes) (start n i : ℕ)
    → i < n
    → get_or (bytes_from content start n) i 0 ≡ get_or content (start + i) 0
unfolding bytes_from
get_or-bytes_from content start zero i below = absurd (omega arith)
get_or-bytes_from content start (suc n) zero below = ap (λ k. get_or content k 0) (omega arith)
get_or-bytes_from content start (suc n) (suc i) below =
    get_or-bytes_from content (start + 1) n i (omega arith)
    ∙ ap (λ k. get_or content k 0) (omega arith)

-- Cut or filled up to its length, the file reads as before within it.
get_or-set_len :
    (n : ℕ) (content : Bytes) (i : ℕ) → i < n → get_or (set_len n content) i 0 ≡ get_or content i 0
unfolding set_len
get_or-set_len n content i below =
    get_or-append (take n content) (replicate (n - length content) 0) i
    ∙ elim (Bool-cases (ltb i (length (take n content)))) [
      | inl inside ↦ rw inside (get_or-take n content i below)
      | inr outside ↦ rw outside (
          get_or-replicate (n - length content) 0 (i - length (take n content))
          ∙ sym (get_or-past content i (ground (arith, length-take n content))))
    ]

get_or-default :
    (flags : List Bool) (id : ℕ)
    → id < length flags
    → get_or flags id true ≡ true
    → get_or flags id false ≡ true
get_or-default [] id inside h = absurd (omega arith)
get_or-default (x ∷ flags) zero inside h = h
get_or-default (x ∷ flags) (suc id) inside h = get_or-default flags id (omega arith) h

all_known :
    (m : BlockMatcher) (id : ℕ)
    → IsValid m
    → is_complete m ≡ true
    → id < total_blocks m
    → is_block_known m id ≡ true
unfolding is_complete is_block_known total_blocks
all_known m id valid complete inside =
    let here : id < length m.known_blocks = omega (arith, inside, valid.known_length) in
    let full : count_known m.known_blocks ≡ length m.known_blocks = ground (arith, valid.counted) in
    rw (lt→ltb id (length m.known_blocks) here)
      (get_or-default m.known_blocks id here (count_known-full m.known_blocks full id))

-- What a complete assembly that implements a store of blocks of the target writes.
pub Implements-IsAssembled :
    (md4 : Bytes → Bytes) (on_disk : Bytes) (control : ControlFile) (m : BlockMatcher)
    (before : Store) (s : ZsyncAssembly)
    → AreBlocks md4 m before
    → Implements md4 on_disk control m before s
    → IsValid s.matcher
    → is_complete s.matcher ≡ true
    → IsAssembled md4 m control.file_length (set_len control.file_length (opened on_disk s.file))
unfolding total_blocks
Implements-IsAssembled md4 on_disk control m before s h i valid complete id inside = (
  bytes_from content (id * s.control.blocksize) s.control.blocksize,
  Learns-AreBlocks md4 m before h i.learns id _ (rw known refl),
  λ k below reaches.
      get_or-set_len control.file_length content (id * m.blocksize + k) reaches
      ∙ rw (← i.blocksize) (
          sym (
            get_or-bytes_from content (id * s.control.blocksize) s.control.blocksize k
              (rw i.blocksize below))),
)
  where
    content : Bytes
    content = opened on_disk s.file

    known : is_block_known s.matcher id ≡ true
    known = all_known s.matcher id valid complete (omega (arith, inside, ap length i.targets))
