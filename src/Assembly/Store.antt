-- ===== src/Assembly/Store.antt =====
-- What an assembly holds, without the matcher, its index and the temporary file: a store of the
-- blocks that have arrived, with their bytes. It is the specification that src/assembly.rs
-- implements.
mod Tests
pub mod Disk
pub mod Copy
pub mod Output
pub mod Scan
pub mod Download
use zsync_rs.Prelude.{
  ℕ, zero, suc, ◌+◌, ◌*◌, ◌<◌, ◌≡◌, Bool, false, [], ◌∷◌, length, get_or, ◌==◌, if◌then◌else◌,
  Option, none, some,
}
use zsync_rs.Control.{Bytes, ControlFile}
use zsync_rs.Matcher.{BlockMatcher, target_at, is_block_known, total_blocks}
use zsync_rs.Matcher.Chain.Sound.{SameDigest}
use zsync_rs.Assembly.{ZsyncAssembly, opened}

-- The bytes of each block that has arrived.
abbrev pub Store : Type 0
Store = ℕ → Option Bytes

abbrev pub put : ℕ → Bytes → Store → Store
put id block store j = if id == j then some block else store j

-- A block of the target: whole, and with the digest that the control file has for `id`.
pub record IsBlock (md4 : Bytes → Bytes) (m : BlockMatcher) (id : ℕ) (block : Bytes) : Type 0 where
  pub in_targets : id < length m.targets
  pub whole : length block ≡ m.blocksize
  pub digest : SameDigest m (md4 block) (target_at m id).checksum

-- The only step of the specification: a block that is missing arrives, whole and verified.
pub data Learns (md4 : Bytes → Bytes) (m : BlockMatcher) (before : Store) : Store → Type 0 where
  nothing : Learns md4 m before before
  learn :
      {store : Store} (id : ℕ) (block : Bytes)
      → Learns md4 m before store
      → store id ≡ none
      → IsBlock md4 m id block
      → Learns md4 m before (put id block store)

-- `n` bytes of a file, where a byte past its end counts as zero.
pub bytes_from : Bytes → ℕ → ℕ → Bytes
bytes_from content start zero = []
bytes_from content start (suc n) = get_or content start 0 ∷ bytes_from content (start + 1) n

-- The blocks that are known, as they stand in a file.
abbrev pub held : (ℕ → Bool) → Bytes → ℕ → Store
held known content size id = if known id then some (bytes_from content (id * size) size) else none

-- What an assembly stands for.
abbrev pub stored : Bytes → ZsyncAssembly → Store
stored on_disk s = held (is_block_known s.matcher) (opened on_disk s.file) s.control.blocksize

-- The blocks that are not known read as zeros.
abbrev pub IsBlank : (ℕ → Bool) → ℕ → Bytes → ℕ → Type 0
IsBlank known total content size =
    (id : ℕ)
    → id < total
    → known id ≡ false
    → (i : ℕ) → i < size
    → get_or content (id * size + i) 0 ≡ 0

-- What every operation keeps, from the store `before` on: the control file, the targets, and a store
-- that only grows by verified blocks.
pub record Implements (md4 : Bytes → Bytes) (on_disk : Bytes) (control : ControlFile)
    (m : BlockMatcher) (before : Store) (s : ZsyncAssembly) : Type 0 where
  pub described : s.control ≡ control
  pub targets : s.matcher.targets ≡ m.targets
  pub hash_lengths : s.matcher.hash_lengths ≡ m.hash_lengths
  pub blocksize : s.control.blocksize ≡ m.blocksize
  pub blank :
      IsBlank
        (is_block_known s.matcher)
        (total_blocks s.matcher)
        (opened on_disk s.file)
        s.control.blocksize
  pub learns : Learns md4 m before (stored on_disk s)
