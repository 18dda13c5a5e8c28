-- ===== src/Control/Header/Parsed.antt =====
-- What `parse` of src/control.rs has checked when it returns a control file.
use mathlib.Core.Path.{subst}
use zsync_rs.Prelude.{
  ℕ, zero, suc, ◌+◌, ◌-◌, ◌*◌, ◌/◌, ◌^◌, ◌≤◌, ◌≡◌, refl, ap, arith, inl, inr, true, List, [], ◌∷◌,
  ◌++◌, ltb, leb, take, drop, slice, replicate, length, length-take, length-drop, length-append,
  length-replicate, length-slice, codes, All, Bool-cases, some, Option-cases, OptionHolds, leb→le,
}
use zsync_rs.Control.{Bytes, BlockChecksum, HashLengths, ControlFile, max_blocksize, ParseError}
use zsync_rs.Control.Generate.{is_power_of_two}
use zsync_rs.Control.Records.{read_block_checksums, decode_block, entry_size}
use zsync_rs.Control.Records.Trip.{IsAccepted}
use zsync_rs.Control.Header.{
  ok, Header, max_blocks, finish, parse_capped, parse, no_header, max_header_bytes,
}
use zsync_rs.Control.Header.Sound.{
  ResultHolds, holds_ok, holds_bind, holds_ensure, holds_ok_or, IsSound, IsBlocksize,
  no_header-IsSound,
}
use zsync_rs.Control.Header.Loop.{header_loop-holds, header_loop-IsCut, IsCut}

-- The facts that `parse` checks, and the blocks that it reads.
pub record IsParsed (c : ControlFile) : Type 0 where
  pub power : is_power_of_two 64 c.blocksize ≡ true
  pub block_fits : c.blocksize ≤ max_blocksize
  pub length_fits : c.file_length ≤ 2 ^ 64 - 1
  pub accepted : IsAccepted c.hash_lengths
  pub sha1_length : OptionHolds (λ v. length v ≡ 40) c.sha1
  pub counted : length c.block_checksums ≡ (c.file_length + (c.blocksize - 1)) / c.blocksize
  pub blocks_fit : length c.block_checksums ≤ max_blocks
  pub digests : All (λ b. length b.checksum ≡ 16) c.block_checksums

module _ (lengths : HashLengths) (ok_lengths : IsAccepted lengths) where
  -- The blocks of `n` records, which are in the reader.
  abbrev AreRead : ℕ → Bytes → List BlockChecksum → Type 0
  AreRead n reader blocks =
      (length blocks ≡ n)
      × All (λ (b : BlockChecksum). length b.checksum ≡ 16) blocks
      × (n * entry_size lengths ≤ length reader)

  length-decode_block :
      (buf : Bytes)
      → length buf ≡ entry_size lengths
      → length (decode_block lengths buf).checksum ≡ 16
  unfolding decode_block
  length-decode_block buf h = omega (
    arith,
    ok_lengths.checksum_range,
    length-append (slice buf lengths.rsum_bytes (lengths.rsum_bytes + lengths.checksum_bytes))
        (replicate (16 - lengths.checksum_bytes) 0),
    length-slice lengths.rsum_bytes lengths.checksum_bytes buf (omega arith),
    length-replicate {A = ℕ} (16 - lengths.checksum_bytes) 0,
  )

  read_block_checksums-AreRead :
      (n : ℕ) (reader : Bytes) (blocks : List BlockChecksum)
      → read_block_checksums lengths n reader ≡ some blocks
      → AreRead n reader blocks
  unfolding read_block_checksums
  read_block_checksums-AreRead zero reader blocks e =
      let same : [] ≡ blocks = cc e in subst (AreRead 0 reader) same (refl, tt, omega arith)
  read_block_checksums-AreRead (suc n) reader blocks e =
      elim (Bool-cases (ltb (length reader) (entry_size lengths))) [
        | inl short ↦ absurd (cc (rw short at e))
        | inr long ↦
            elim (Option-cases
              (read_block_checksums lengths n (drop (entry_size lengths) reader))) [
                | inl bad ↦ absurd (cc (rw (long, bad) at e))
                | inr (rest, good) ↦
                    let (count, sizes, fits) = read_block_checksums-AreRead n _ rest good in
                    let enough : entry_size lengths ≤ length reader = ground arith in
                    let same : decode_block lengths (take (entry_size lengths) reader) ∷ rest
                        ≡ blocks =
                      cc (rw (long, good) at e) in
                    subst (AreRead (suc n) reader) same (
                      ap suc count,
                      (
                        length-decode_block _
                            (omega (arith, length-take (entry_size lengths) reader)),
                        sizes,
                      ),
                      omega (arith, length-drop (entry_size lengths) reader),
                    )
              ]
      ]

-- A control file that is read, and its records behind the header.
abbrev IsRead : Bytes → ControlFile → Type 0
IsRead reader c =
    IsParsed c × (length c.block_checksums * entry_size c.hash_lengths ≤ length reader)

finished :
    (h : Header) (bs n : ℕ) (blocks : List BlockChecksum) (reader : Bytes)
    → IsSound h
    → h.blocksize ≡ some bs
    → h.file_length ≡ some n
    → leb ((n + (bs - 1)) / bs) max_blocks ≡ true
    → read_block_checksums h.hash_lengths ((n + (bs - 1)) / bs) reader ≡ some blocks
    → IsRead reader (record {
      version = h.version;
      filename = h.filename;
      mtime = h.mtime;
      blocksize = bs;
      file_length = n;
      hash_lengths = h.hash_lengths;
      urls = h.urls;
      sha1 = h.sha1;
      block_checksums = blocks;
    })
finished h bs n blocks reader s e e' fits read =
    let (count, sizes, arrived) =
      read_block_checksums-AreRead h.hash_lengths s.2 _ reader blocks read in
    let sound_bs : IsBlocksize bs = rw e at s.0 in
    (
      record {
        power = sound_bs.0;
        block_fits = sound_bs.1;
        length_fits = rw e' at s.1;
        accepted = s.2;
        sha1_length = s.3;
        counted = count;
        blocks_fit = omega (arith, count, leb→le ((n + (bs - 1)) / bs) max_blocks fits);
        digests = sizes;
      },
      rw count arrived,
    )

finish-IsRead :
    (h : Header) (reader : Bytes) → IsSound h → ResultHolds (IsRead reader) (finish h reader)
unfolding finish
finish-IsRead h reader s =
    holds_bind (holds_ok_or h.blocksize (ParseError.missing_field (codes "Blocksize"))) (λ bs e.
      holds_bind (holds_ok_or h.file_length (ParseError.missing_field (codes "Length"))) (λ n e'.
        holds_ensure (leb ((n + (bs - 1)) / bs) max_blocks) _ (λ fits.
          holds_bind
            (holds_ok_or (read_block_checksums h.hash_lengths ((n + (bs - 1)) / bs) reader)
              ParseError.io)
            (λ blocks read. holds_ok (finished h bs n blocks reader s e e' fits read)))))

parse_capped-holds :
    (cap : ℕ) (reader : Bytes)
    → ResultHolds
        (λ c.
          IsParsed c
          × ((header records : Bytes) × (reader ≡ header ++ records)
              × (length header ≤ cap)
              × (length c.block_checksums * entry_size c.hash_lengths ≤ length records)))
        (parse_capped cap reader)
unfolding parse_capped
parse_capped-holds cap reader =
    holds_bind {P = λ p. IsSound p.0 × IsCut cap reader p.1}
      (record {
        value_holds = λ p e. (
          (header_loop-holds (suc cap) cap reader no_header no_header-IsSound).value_holds p e,
          (header_loop-IsCut (suc cap) cap reader no_header).value_holds p e,
        );
      })
      (λ p s. record {
        value_holds = λ c e.
            let (parsed, arrived) = (finish-IsRead p.0 p.1 s.0).value_holds c e in
            let (header, parts, fits) = s.1 in (parsed, (header, p.1, parts, fits, arrived));
      })

-- When `parse` accepts an input, the block size is a power of two of at most 1 MiB, the length fits
-- 64 bits, the hash lengths and the SHA-1 are in range, there are exactly as many blocks as the
-- length takes, at most 2 ^ 26, with digests of 16 bytes each; and the input is a header of at most
-- 1 MiB followed by at least the bytes of all records.
pub parse-IsParsed :
    (reader : Bytes) (c : ControlFile)
    → parse reader ≡ ok c
    → IsParsed c
      × ((header records : Bytes) × (reader ≡ header ++ records)
          × (length header ≤ max_header_bytes)
          × (length c.block_checksums * entry_size c.hash_lengths ≤ length records))
unfolding parse
parse-IsParsed reader c e = (parse_capped-holds max_header_bytes reader).value_holds c e
