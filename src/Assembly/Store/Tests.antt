-- ===== src/Assembly/Store/Tests.antt =====
-- A block that a server sends, and one that a local file holds, as steps of the store.
use zsync_rs.Prelude.{ℕ, ◌+◌, refl, arith, Bool, false, [], ◌∷◌, drop, take, Option, none, some}
use zsync_rs.Control.{Bytes, ControlFile}
use zsync_rs.Matcher.New.{new}
use zsync_rs.Matcher.New.Valid.{new-IsValid}
use zsync_rs.Http.Client.{Answer}
use zsync_rs.Assembly.{ZsyncAssembly, with_client}
use zsync_rs.Assembly.Scan.{submit_source_file}
use zsync_rs.Assembly.Download.{download_missing_blocks}
use zsync_rs.Assembly.Store.{Implements, stored}
use zsync_rs.Assembly.Store.Download.{download_missing_blocks-Implements}
use zsync_rs.Assembly.Store.Scan.{submit_source_file-Implements}

-- A target of two blocks, with a digest that is easy to follow: the block itself.
abbrev two_blocks : ControlFile
two_blocks = record {
  version = [];
  filename = none;
  mtime = none;
  blocksize = 4;
  file_length = 7;
  hash_lengths = record { seq_matches = 1; rsum_bytes = 4; checksum_bytes = 16 };
  urls = (b'u' ∷ []) ∷ [];
  sha1 = none;
  block_checksums =
      record { rsum = record { a = 10; b = 20 }; checksum = 1 ∷ 2 ∷ 3 ∷ 4 ∷ [] }
      ∷ record { rsum = record { a = 18; b = 38 }; checksum = 5 ∷ 6 ∷ 7 ∷ 0 ∷ [] }
      ∷ [];
}

abbrev wanted : ZsyncAssembly
wanted = with_client two_blocks [] none (record { redirect = none })

abbrev plain : Bytes → Bytes
plain block = block

abbrev serve : ℕ → Bytes → ℕ → ℕ → ℕ × Answer Bytes
serve requests url start end =
    (requests + 1, Answer.response url 206 (1 ∷ 2 ∷ 3 ∷ 4 ∷ 5 ∷ 6 ∷ 7 ∷ []))

abbrev read_bytes : Bytes → ℕ → Bytes × Option Bytes
read_bytes body len = (drop len body, some (take len body))

abbrev poll : ℕ → ℕ × Bool
poll requests = (requests, false)

download_missing_blocks-Implements_example :
    Implements plain [] two_blocks wanted.matcher
      (stored [] wanted)
      (download_missing_blocks plain [] serve read_bytes poll 0 wanted).1
unfolding with_client new
download_missing_blocks-Implements_example =
    download_missing_blocks-Implements plain [] serve read_bytes poll 0 wanted
      (new-IsValid two_blocks (omega arith), refl, omega arith, refl, refl)
      (λ id inside unknown i below. refl)

submit_source_file-Implements_example :
    Implements plain [] two_blocks wanted.matcher
      (stored [] wanted)
      (submit_source_file plain 2 [] (λ round. false) (9 ∷ 5 ∷ 6 ∷ 7 ∷ 0 ∷ []) wanted).0
unfolding with_client new
submit_source_file-Implements_example =
    submit_source_file-Implements plain 2 [] (λ round. false) (9 ∷ 5 ∷ 6 ∷ 7 ∷ 0 ∷ []) wanted
      (new-IsValid two_blocks (omega arith), refl, omega arith, refl, refl) (omega arith)
      (λ id inside unknown i below. refl)
