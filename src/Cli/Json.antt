-- ===== src/Cli/Json.antt =====
-- `json_escape` of src/bin/zsync.rs, and the lines of events that use it.
pub mod Read
use zsync_rs.Prelude.{
  ℕ, ◌/◌, ◌%◌, Bool, List, [], ◌∷◌, ◌++◌, ltb, ◌==◌, if◌then◌else◌, codes, Option, none, some,
}
use zsync_rs.Control.Hex.{hex_digit}
use zsync_rs.Control.Decimal.{print_uint}

abbrev pub Text : Type 0
Text = List ℕ

-- A character below 0x20 has two hexadecimal digits at most, so `{:04x}` puts two zeros in front.
unfoldable pub escape_char : ℕ → Text
unfolding hex_digit
escape_char c =
    if c == b'"'
    then b'\\' ∷ b'"' ∷ []
    else if c == b'\\'
    then b'\\' ∷ b'\\' ∷ []
    else if c == b'\n'
    then b'\\' ∷ b'n' ∷ []
    else if c == b'\r'
    then b'\\' ∷ b'r' ∷ []
    else if c == b'\t'
    then b'\\' ∷ b't' ∷ []
    else if ltb c 0x20
    then b'\\' ∷ b'u' ∷ b'0' ∷ b'0' ∷ hex_digit (c / 16) ∷ hex_digit (c % 16) ∷ []
    else c ∷ []

unfoldable pub json_escape : Text → Text
unfolding escape_char
json_escape [] = []
json_escape (c ∷ input) = escape_char c ++ json_escape input

-- The events on standard output. `file` is escaped when its phase begins.
pub data Event : Type 0 where
  progress : Text → Option Text → ℕ → ℕ → ℕ → Bool → Event
  start : ℕ → ℕ → ℕ → Event
  phase : Text → Event
  done : Text → Event
  retry : ℕ → ℕ → ℕ → Text → Event
  error : Text → Event

-- `"name":"value"` and `"name":value`.
abbrev text_field : Text → Text → Text
text_field name value = b'"' ∷ name ++ (codes "\":\"" ++ (value ++ codes "\""))

abbrev number_field : Text → ℕ → Text
number_field name value = b'"' ∷ name ++ (codes "\":" ++ print_uint value)

-- `progress_json` and the formats of the `emit` functions.
unfoldable pub event_line : Event → Text
unfolding json_escape
event_line (Event.progress name file done_bytes total elapsed last) =
    let file_part : Text = elim file [ none ↦ [] | some f ↦ b',' ∷ text_field (codes "file") f ] in
    b'{' ∷ text_field (codes "event") (codes "progress")
    ++ (b',' ∷ text_field (codes "phase") name
        ++ (file_part
            ++ (b',' ∷ number_field (codes "done_bytes") done_bytes
                ++ (b',' ∷ number_field (codes "total_bytes") total
                    ++ (b',' ∷ number_field (codes "elapsed_ms") elapsed
                        ++ ((if last then codes ",\"final\":true" else []) ++ (b'}' ∷ [])))))))
event_line (Event.start total_bytes total_blocks blocksize) =
    b'{' ∷ text_field (codes "event") (codes "start")
    ++ (b',' ∷ number_field (codes "total_bytes") total_bytes
        ++ (b',' ∷ number_field (codes "total_blocks") total_blocks
            ++ (b',' ∷ number_field (codes "blocksize") blocksize ++ (b'}' ∷ []))))
event_line (Event.phase name) =
    b'{' ∷ text_field (codes "event") (codes "phase")
    ++ (b',' ∷ text_field (codes "phase") name ++ (b'}' ∷ []))
event_line (Event.done path) =
    b'{' ∷ text_field (codes "event") (codes "done")
    ++ (b',' ∷ text_field (codes "path") (json_escape path) ++ (b'}' ∷ []))
event_line (Event.retry attempt retries delay_ms message) =
    b'{' ∷ text_field (codes "event") (codes "retry")
    ++ (b',' ∷ number_field (codes "attempt") attempt
        ++ (b',' ∷ number_field (codes "retries") retries
            ++ (b',' ∷ number_field (codes "delay_ms") delay_ms
                ++ (b',' ∷ text_field (codes "message") (json_escape message) ++ (b'}' ∷ [])))))
event_line (Event.error message) =
    b'{' ∷ text_field (codes "event") (codes "error")
    ++ (b',' ∷ text_field (codes "message") (json_escape message) ++ (b'}' ∷ []))
