-- ===== src/Http/Tests.antt =====
-- Requests of a download, and readers over a stand-in for the agent.
use zsync_rs.Prelude.{
  ℕ, ◌+◌, ◌/◌, ◌≡◌, ◌⊎◌, refl, arith, [], ◌∷◌, ◌||◌, ◌&&◌, not, take, drop, length-take, ltb,
  Option, none, some,
}
use zsync_rs.Control.{Bytes, ControlFile}
use zsync_rs.Matcher.{BlockMatcher, is_known_at}
use zsync_rs.Matcher.New.{new}
use zsync_rs.Matcher.Ranges.{needed_block_ranges}
use zsync_rs.Http.Ranges.{ByteRanges, merge_byte_ranges, byte_ranges_from_block_ranges}
use zsync_rs.Http.Ranges.Cover.{
  holds, in_gap, IsApart, merge_byte_ranges-holds, merge_byte_ranges-IsApart,
}
use zsync_rs.Http.Ranges.Plan.{planned-holds}
use zsync_rs.Http.Client.{
  Answer, HttpClient, HttpRangeReader, range_read, open_range, fetch_range_reader,
}
use zsync_rs.Http.Client.Cap.{read_all}
use zsync_rs.Http.Fetch.{read_to_end, fetch_ranges}
use zsync_rs.Http.Fetch.Bodies.{AreBodies, fetch_ranges-AreBodies}
use zsync_rs.Http.Client.{Result}
use zsync_rs.Http.Ranges.{ByteRanges}
use zsync_rs.Http.Client.Redirect.{IsServed, fetch_range_reader-IsServed}

abbrev ranges : ByteRanges
ranges = (0, 99) ∷ (110, 119) ∷ (500, 599) ∷ []

merged : merge_byte_ranges ranges 10 ≡ (0, 119) ∷ (500, 599) ∷ []
unfolding merge_byte_ranges
merged = refl

merge_byte_ranges-holds_example :
    holds (merge_byte_ranges ranges 10) 105 ≡ (holds ranges 105 || in_gap 10 ranges 105)
merge_byte_ranges-holds_example = merge_byte_ranges-holds ranges 10 105 (ground arith)

merge_byte_ranges-IsApart_example : IsApart 10 0 (merge_byte_ranges ranges 10)
merge_byte_ranges-IsApart_example = merge_byte_ranges-IsApart ranges 10 (ground arith)

abbrev empty_block : ControlFile
empty_block = record {
  version = [];
  filename = none;
  mtime = none;
  blocksize = 4;
  file_length = 10;
  hash_lengths = record { seq_matches = 1; rsum_bytes = 4; checksum_bytes = 16 };
  urls = [];
  sha1 = none;
  block_checksums =
      record { rsum = record { a = 1; b = 1 }; checksum = [] }
      ∷ record { rsum = record { a = 2; b = 2 }; checksum = [] }
      ∷ record { rsum = record { a = 3; b = 3 }; checksum = [] }
      ∷ [];
}

abbrev fresh : BlockMatcher
fresh = new empty_block

planned-holds_example :
    let ranges = byte_ranges_from_block_ranges (needed_block_ranges fresh) 4 10 in
    holds (merge_byte_ranges ranges 0) 9
    ≡ ((not (is_known_at fresh (9 / 4)) && ltb 9 10) || in_gap 0 ranges 9)
unfolding new
planned-holds_example = planned-holds fresh 4 10 0 9 (omega arith) (omega arith) (ground arith)

-- A body as the bytes that are left of it.
abbrev read_bytes : Bytes → ℕ → Bytes × Option Bytes
read_bytes body len = (drop len body, some (take len body))

abbrev overlong : HttpRangeReader Bytes
overlong = record { reader = some (1 ∷ 2 ∷ 3 ∷ 4 ∷ 5 ∷ 6 ∷ []); remaining = 4 }

capped : read_all read_bytes overlong (3 ∷ 3 ∷ 3 ∷ []) ≡ 1 ∷ 2 ∷ 3 ∷ 4 ∷ []
unfolding read_all range_read
capped = refl

-- A server that answers every request for a range with it.
abbrev serve : ℕ → Bytes → ℕ → ℕ → ℕ × Answer Bytes
serve requests url start end = (requests + 1, Answer.response (b'/' ∷ url) 206 (1 ∷ 2 ∷ 3 ∷ []))

abbrev client : HttpClient
client = record { redirect = some (b'a' ∷ [], b'b' ∷ []) }

fetch_range_reader-IsServed_example :
    let reader : HttpRangeReader Bytes = record { reader = some (1 ∷ 2 ∷ 3 ∷ []); remaining = 3 } in
    IsServed serve (b'a' ∷ []) 5 7 reader
    ⊎ ((to : Bytes) × (client.redirect ≡ some (b'a' ∷ [], to)) × IsServed serve to 5 7 reader)
unfolding fetch_range_reader open_range
fetch_range_reader-IsServed_example =
    fetch_range_reader-IsServed serve client (b'a' ∷ []) 5 7 0
      (record { reader = some (1 ∷ 2 ∷ 3 ∷ []); remaining = 3 }) refl

abbrev two_ranges : ByteRanges
two_ranges = (4, 6) ∷ (8, 10) ∷ []

fetches :
    (fetch_ranges read_bytes (λ round. 2) serve client (b'a' ∷ []) two_ranges 4 0).2
    ≡ Result.ok ((4, 1 ∷ 2 ∷ 3 ∷ []) ∷ (8, 1 ∷ 2 ∷ 3 ∷ []) ∷ [])
unfolding fetch_ranges fetch_range_reader open_range read_to_end range_read
fetches = refl

fetch_ranges-AreBodies_example :
    AreBodies 4 two_ranges ((4, 1 ∷ 2 ∷ 3 ∷ []) ∷ (8, 1 ∷ 2 ∷ 3 ∷ []) ∷ [])
fetch_ranges-AreBodies_example =
    fetch_ranges-AreBodies read_bytes (λ r len bytes h. ground (arith, length-take len r))
      (λ round. 2) serve client (b'a' ∷ []) two_ranges 4 0
      ((4, 1 ∷ 2 ∷ 3 ∷ []) ∷ (8, 1 ∷ 2 ∷ 3 ∷ []) ∷ []) fetches
