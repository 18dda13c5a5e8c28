-- ===== src/Checksum/Tests.antt =====
-- A reader that gives its bytes in two pieces, and one that breaks off.
use mathlib.Core.List.{append_assoc, append-nil}
use zsync_rs.Prelude.{
  ℕ, zero, suc, ◌≡◌, ◌<◌, refl, arith, [], ◌∷◌, ◌++◌, length, Option, none, some,
}
use zsync_rs.Control.{Bytes}
use zsync_rs.Checksum.{Hasher, calc_sha1, calc_sha1_stream}
use zsync_rs.Checksum.Stream.{Yields, Breaks, ends, calc_sha1_stream-calc_sha1}

-- A hasher that keeps all it is given.
abbrev keep_all : Hasher
keep_all = record {
  State = Bytes;
  new = [];
  update = λ h bytes. h ++ bytes;
  finalize = λ h. h;
  update-nil = append-nil;
  update-append = append_assoc;
}

-- The pieces that are left, and whether an error follows them.
abbrev pieces : ℕ → ℕ → ℕ × Option Bytes
pieces zero len = (0, some [])
pieces (suc zero) len = (0, some (3 ∷ []))
pieces (suc (suc zero)) len = (1, some (1 ∷ 2 ∷ []))
pieces (suc (suc (suc n))) len = (3, none)

two_pieces : Yields pieces 2 (1 ∷ 2 ∷ 3 ∷ [])
two_pieces = Yields.gives 1 (2 ∷ []) (3 ∷ []) refl refl (Yields.gives 3 [] [] refl refl (ends refl))

calc_sha1_stream-calc_sha1_example :
    ((content : Bytes)
      → Yields pieces 2 content
      → length content < 9
      → (calc_sha1_stream keep_all pieces 9 2).1 ≡ some (calc_sha1 keep_all content))
    × ((n : ℕ) → Breaks pieces 2 n → (calc_sha1_stream keep_all pieces 9 2).1 ≡ none)
calc_sha1_stream-calc_sha1_example = calc_sha1_stream-calc_sha1 keep_all pieces 9 2

hashed : (calc_sha1_stream keep_all pieces 9 2).1 ≡ some (1 ∷ 2 ∷ 3 ∷ [])
unfolding calc_sha1
hashed =
    (calc_sha1_stream-calc_sha1 keep_all pieces 9 2).0 (1 ∷ 2 ∷ 3 ∷ []) two_pieces (omega arith)
