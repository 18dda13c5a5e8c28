-- ===== src/Assembly/Download/Counts.antt =====
-- The number that `download_missing_blocks` of src/assembly.rs returns.
pub mod Buffer
use zsync_rs.Prelude.{ℕ, Bool, Option}
use zsync_rs.Control.{Bytes}
use zsync_rs.Matcher.{total_blocks}
use zsync_rs.Http.Client.{Answer}
use zsync_rs.Assembly.{ZsyncAssembly}
use zsync_rs.Assembly.Download.{download_missing_blocks}
use zsync_rs.Assembly.Download.Rule.Ranges.{download_missing_blocks_rule}
use zsync_rs.Assembly.Download.Counts.Buffer.{IsCounted, IsCounted-IsKept}

-- From a valid matcher whose block size is that of the control file and at least one: the number
-- that a download returns, or has reached when an error or an abort ends it, is exactly the number
-- of blocks that the matcher knows in addition; the matcher stays valid, of as many blocks, and of
-- that block size.
pub download_missing_blocks-IsCounted :
    (md4 : Bytes → Bytes) (on_disk : Bytes) {W R : Type 0} (call : W → Bytes → ℕ → ℕ → W × Answer R)
    (read_inner : R → ℕ → R × Option Bytes) (poll : W → W × Bool) (w : W) (s : ZsyncAssembly)
    → IsCounted (total_blocks s.matcher) s.matcher.known_count s 0
    → let (w', s', n, error) = download_missing_blocks md4 on_disk call read_inner poll w s in
      IsCounted (total_blocks s.matcher) s.matcher.known_count s' n
download_missing_blocks-IsCounted md4 on_disk call read_inner poll w s k =
    download_missing_blocks_rule md4 on_disk
      (IsCounted-IsKept md4 on_disk (total_blocks s.matcher) s.matcher.known_count) call read_inner
      poll w s k
