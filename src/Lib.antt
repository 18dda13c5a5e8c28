-- ===== src/Lib.antt =====
-- A model of zsync-rs, which brings a local copy of a file up to date by downloading only the
-- blocks that the local data does not hold.
--
-- The parts, and how they work together. A control file lists, for each block of the target, a
-- rolling checksum and a digest. The matcher indexes these, finds blocks in local data at every
-- byte offset, and keeps which blocks are known. The assembly copies what the matcher finds into a
-- temporary file, asks the HTTP client for the ranges of bytes that are still missing, hands what
-- arrives to the matcher, and moves the file to its place once it is whole.
--
--   * Prelude: lists measured by native numbers, slices, bits, words, Boolean tests.
--   * Checksum: src/checksum.rs, with the hashers of other crates as an interface.
--   * Rsum: src/rsum.rs, and the update of a sliding window in `scan_chunk` of src/matcher.rs (`roll`).
--   * Control: the types of src/control.rs; Header is `parse`, Write is `write`, Records the binary records
--     of both (`read_block_checksums`, `rsum_to_bytes`), Generate is `generate`. Text and Decimal are what
--     they use of Rust's strings.
--   * Matcher: `BlockMatcher` of src/matcher.rs, with its small operations. New is the constructor,
--     Chain is `match_chain`, Scan is `scan_chunk`, Submit is `submit_blocks` and `submit_source_data`,
--     Ranges is `needed_block_ranges`. Known and Unlink hold the well-formedness of a matcher and what
--     the operations on known blocks and on the index do to it.
--   * Http: the errors of src/http.rs; Http.Ranges: the plan of the requests; Http.Client:
--     `HttpRangeReader::read`, `open_range` and `fetch_range_reader`; Http.Fetch: `fetch_control_file`,
--     `fetch_range` and `fetch_ranges`.
--   * Assembly: `ZsyncAssembly` of src/assembly.rs; Scan is `submit_source_file` and
--     `submit_self_referential`, Download is `download_missing_blocks`, Complete is `complete`, Urls is
--     `extract_base_url` and `resolve_url`; Write is about `write_at_offset`; Start is `new`,
--     `with_base_url`, `from_url` and `from_url_with_client`. Store is the specification of an assembly: the
--     blocks that have arrived, with their bytes, and one step, in which a missing block arrives.
--   * Cli: src/bin/zsync.rs; Run is `main` from its arguments on, Run.Disk what it leaves at the
--     temporary path and the output path, Main is `main` from the assembly on, Retry its download
--     loop, Reporter the `Reporter`, Json its events and `json_escape`, Bar the progress bar, Output
--     is `default_output`.
--   * Make: src/bin/zsyncmake.rs, and the two programs together.
--
-- Words keep their width where the code can reach it: the sums are modulo 2^16, a hash modulo
-- 2^32. A block number that a `u32` cannot hold would be cut off, as in the code. Where the
-- constructor of the matcher shifts a `u32`, the amount wraps as in a release build; a debug build
-- would panic there, which no control file reaches that `parse` accepts.
--
-- Loops that the code bounds by a condition run on fuel. A chain of the index has at most as many
-- blocks as the target; a scan has at most one round for each offset below its limit; a buffer
-- gives up at least a block in each round of a download, and each read but the last at least one
-- byte. A round of the header loop takes a byte off the cap of 1 MiB. An attempt of the download
-- loop finds a block, or uses up a retry.
--
-- What is not under src/ is a parameter: MD4 and SHA-1 (src/checksum.rs calls other crates for
-- them; outside Checksum they are functions of bytes), the agent that sends requests, the bodies
-- of its answers, and what the abort flag reads. The number of threads is a parameter too; their
-- results are joined in the order of their chunks, as in the code. Local files are lists of bytes,
-- and operations on them succeed. When a reader has given all that was asked for, the code reads
-- on once and drops the result; only that it drops the body is modelled.
--
-- Not modelled: the logarithms in floating point from which `calculate_hash_lengths` takes its
-- numbers before it clamps them, and the numbers that src/bin/zsync.rs prints in floating point
-- (parameters), the callbacks that report progress, the parsing of arguments and the messages of
-- `main` in both programs, the permissions that `complete` carries over, and a control file whose
-- body breaks off in an error of the network.
pub mod Prelude
pub mod Rsum
pub mod Checksum
pub mod Control
pub mod Matcher
pub mod Http
pub mod Assembly
pub mod Cli
pub mod Make
