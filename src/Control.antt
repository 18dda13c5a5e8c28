-- ===== src/Control.antt =====
-- src/control.rs: what a parsed control file holds. Text is a list of its UTF-8 bytes.
pub mod Records
pub mod Hex
pub mod Generate
pub mod Text
pub mod Decimal
pub mod Header
pub mod Write
use zsync_rs.Prelude.{ℕ, List, Option, ◌^◌}
use zsync_rs.Rsum.{Rsum}

abbrev pub Bytes : Type 0
Bytes = List ℕ

-- The largest block size, 1 MiB.
abbrev pub max_blocksize : ℕ
max_blocksize = 2 ^ 20

pub record BlockChecksum : Type 0 where
  pub rsum : Rsum
  pub checksum : Bytes

pub record HashLengths : Type 0 where
  pub seq_matches : ℕ
  pub rsum_bytes : ℕ
  pub checksum_bytes : ℕ

pub record ControlFile : Type 0 where
  pub version : Bytes
  pub filename : Option Bytes
  pub mtime : Option Bytes
  pub blocksize : ℕ
  pub file_length : ℕ
  pub hash_lengths : HashLengths
  pub urls : List Bytes
  pub sha1 : Option Bytes
  pub block_checksums : List BlockChecksum

abbrev pub default_hash_lengths : HashLengths
default_hash_lengths = record { seq_matches = 1; rsum_bytes = 4; checksum_bytes = 16 }

-- Why a control file is refused. The text of an error is kept where the source keeps it.
pub data ParseError : Type 0 where
  io unexpected_eof : ParseError
  invalid_header missing_field invalid_blocksize invalid_hash_lengths : Bytes → ParseError
  invalid_length : Bytes → ParseError
  header_too_large : ℕ → ParseError
