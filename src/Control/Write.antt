-- ===== src/Control/Write.antt =====
-- `write` of src/control.rs. A writer is the bytes that it is given.
mod Tests
pub mod Trip
pub mod Generated
use zsync_rs.Prelude.{ℕ, List, [], ◌∷◌, ◌++◌, map, codes, Option, none, some}
use zsync_rs.Control.{Bytes, HashLengths, ControlFile}
use zsync_rs.Control.Decimal.{print_uint}
use zsync_rs.Control.Records.{write_blocks}

-- `if let Some(ref value) = field`
unfoldable pub optional : Bytes → Option Bytes → List (Bytes × Bytes)
optional key none = []
optional key (some value) = (key, value) ∷ []

-- "{},{},{}"
unfoldable pub print_lengths : HashLengths → Bytes
print_lengths lengths =
    print_uint lengths.seq_matches
    ++ (b',' ∷ (print_uint lengths.rsum_bytes ++ (b',' ∷ print_uint lengths.checksum_bytes)))

-- The names and values of the header lines, in the order in which they are written.
unfoldable pub fields : ControlFile → List (Bytes × Bytes)
unfolding optional print_lengths
fields c =
    (codes "zsync", c.version)
    ∷ (optional (codes "Filename") c.filename
        ++ (optional (codes "MTime") c.mtime
            ++ ((codes "Blocksize", print_uint c.blocksize)
                ∷ (codes "Length", print_uint c.file_length)
                ∷ (codes "Hash-Lengths", print_lengths c.hash_lengths)
                ∷ (map (λ url. (codes "URL", url)) c.urls ++ optional (codes "SHA-1") c.sha1))))

-- `writeln!(writer, "key: {value}")` for each.
unfoldable pub write_lines : List (Bytes × Bytes) → Bytes
write_lines [] = []
write_lines ((key, value) ∷ rest) =
    ((key ++ (b':' ∷ b' ' ∷ value)) ++ (b'\n' ∷ [])) ++ write_lines rest

unfoldable pub write : ControlFile → Bytes
unfolding fields write_lines
write c = write_lines (fields c) ++ (b'\n' ∷ write_blocks c.hash_lengths c.block_checksums)
