-- ===== src/Assembly/Store/Copy.antt =====
-- The copies that a scan makes into the temporary file, as steps of the store (src/assembly.rs).
use mathlib.Core.Path.{fun_ext}
use mathlib.Core.List.{append-nil}
use native.Mathlib.Decide.{ℕ_discrete}
use zsync_rs.Prelude.{
  ℕ, ◌+◌, ◌-◌, ◌*◌, ◌≤◌, ◌≡◌, refl, sym, ap, ◌∙◌, arith, Bool, true, false, [], ◌∷◌, ◌++◌, length,
  replicate, slice, ◌==◌, if◌then◌else◌, All, length-slice, ==_refl, ==_of_ne,
}
use zsync_rs.Control.{Bytes}
use zsync_rs.Matcher.{BlockMatcher}
use zsync_rs.Matcher.Chain.{Matches}
use zsync_rs.Matcher.Chain.Sound.{IsMatch, Verifies}
use zsync_rs.Matcher.Submit.Accept.{names, IsDistinct}
use zsync_rs.Matcher.Submit.Source.{}
use zsync_rs.Assembly.{ZsyncAssembly, opened, write_block}
use zsync_rs.Assembly.Scan.{copy_blocks}
use zsync_rs.Assembly.Store.{Store, IsBlock, Learns, held, IsBlank}
use zsync_rs.Assembly.Store.Disk.{held-write_at, IsBlank-write_at, learn_at}

module _ (md4 : Bytes → Bytes) (num_threads : ℕ) (on_disk : Bytes) where
  pub copy_blocks-keeps :
      (buf : Bytes) (overlap_start : ℕ) (found : Matches) (s : ZsyncAssembly)
      → let s' = copy_blocks md4 num_threads on_disk buf overlap_start found s in
        (s'.matcher ≡ s.matcher) × (s'.control ≡ s.control)
  unfolding copy_blocks write_block
  copy_blocks-keeps buf overlap_start [] s = (refl, refl)
  copy_blocks-keeps buf overlap_start ((block_id, source_offset) ∷ rest) s =
      copy_blocks-keeps buf overlap_start rest _

  module _ (m : BlockMatcher) (before : Store) (buf : Bytes) (overlap_start : ℕ) where
    -- What the copies need of the list that is left.
    pub record IsCopied (known : ℕ → Bool) (found : Matches) (s : ZsyncAssembly) : Type 0 where
      pub matches : All (IsMatch md4 m buf overlap_start) found
      pub distinct : IsDistinct found
      pub unknown : (id : ℕ) → names id found ≡ true → known id ≡ false
      pub blocksize : s.control.blocksize ≡ m.blocksize
      pub blank : IsBlank known (length m.targets) (opened on_disk s.file) s.control.blocksize
      pub learns : Learns md4 m before (held known (opened on_disk s.file) s.control.blocksize)

    pub copy_blocks-IsCopied :
        (found : Matches) (known known' : ℕ → Bool) (s : ZsyncAssembly)
        → IsCopied known found s
        → ((id : ℕ) → known' id ≡ (if known id then true else names id found))
        → IsCopied known' [] (copy_blocks md4 num_threads on_disk buf overlap_start found s)
    unfolding copy_blocks write_block names IsDistinct
    copy_blocks-IsCopied [] known known' s c grown = rw (fun_ext same) (record {
      matches = tt;
      distinct = tt;
      unknown = λ id h. cc;
      blocksize = c.blocksize;
      blank = c.blank;
      learns = c.learns;
    })
      where
        same : (id : ℕ) → known' id ≡ known id
        same id = ground (arith, grown id)
    copy_blocks-IsCopied ((block_id, source_offset) ∷ rest) known known' s c grown =
        copy_blocks-IsCopied rest taken known' _ after regrown
      where
        size : ℕ
        size = s.control.blocksize

        x : ℕ
        x = source_offset - overlap_start

        block : Bytes
        block = slice buf x (x + size)

        content : Bytes
        content = opened on_disk s.file

        taken : ℕ → Bool
        taken id = if block_id == id then true else known id

        regrown : (id : ℕ) → known' id ≡ (if taken id then true else names id rest)
        regrown id = ground (arith, grown id)

        missing : known block_id ≡ false
        missing = c.unknown block_id (rw (==_refl block_id) refl)

        found_window :
            (x' : ℕ) × (source_offset ≡ overlap_start + x') × Verifies md4 m buf block_id x'
        found_window = c.matches.0

        same_block : block ≡ slice buf found_window.0 (found_window.0 + m.blocksize)
        same_block =
            let e : x ≡ found_window.0 = omega (arith, found_window.1) in rw (e, c.blocksize) refl

        length_block : length block ≡ size
        length_block =
            ap length same_block
            ∙ length-slice found_window.0 m.blocksize buf found_window.2.in_input
            ∙ sym c.blocksize

        block_short : length block ≤ size
        block_short = omega (arith, length_block)

        padded : block ++ replicate (size - length block) 0 ≡ block
        padded =
            let e : size - length block ≡ 0 = omega (arith, length_block) in rw e (append-nil block)

        is_block : IsBlock md4 m block_id (block ++ replicate (size - length block) 0)
        is_block = rw padded (record {
          in_targets = found_window.2.in_targets;
          whole = length_block ∙ c.blocksize;
          digest = rw same_block (found_window.2.digest);
        })

        still_unknown : (id : ℕ) → names id rest ≡ true → taken id ≡ false
        still_unknown id h = elim (ℕ_discrete block_id id) [
          | yes same ↦ cc (c.distinct.0, ap (λ t. names t rest) same, h)
          | no other ↦
              rw (==_of_ne block_id id other) (c.unknown id (rw (==_of_ne block_id id other) h))
        ]

        after : IsCopied taken rest (write_block on_disk (block_id * size) block s)
        after = record {
          matches = c.matches.1;
          distinct = c.distinct.1;
          unknown = still_unknown;
          blocksize = c.blocksize;
          blank =
              IsBlank-write_at content block_id size block block_short known taken
                (length m.targets) (λ id. refl) c.blank;
          learns =
              learn_at md4 m before (held known content size) _ block_id _ c.learns
                (rw missing refl) is_block
                (held-write_at content block_id size block block_short known taken
                  (λ k behind below. absurd (omega (arith, behind, below, length_block)))
                  (λ id. refl));
        }
