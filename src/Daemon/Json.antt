-- ===== src/Daemon/Json.antt =====
-- windows_daemon/ipc.go: the bytes of a connection, as code points: how `writeResp` encodes a
-- response with `encoding/json`, and how the loop in `handle` cuts its input into lines.
pub mod Framing
pub mod Syntax
pub mod Modes
pub mod Scanner
pub mod Decode
pub mod Strings
pub mod Written
pub mod Requests
pub mod Streams
pub mod Responses
use fastflow_client.Base.{
  ℕ, ◌+◌, ◌-◌, ◌/◌, ◌%◌, Bool, true, false, ◌||◌, List, [], ◌∷◌, ◌++◌, ◌==◌, ltb, if◌then◌else◌,
  length,
}
use fastflow_client.Base.Text.{Text, codes, show_ℤ}
use fastflow_client.Daemon.Ipc.{Response, Payload, no_payload, empty_payload, pong}
use mathlib.Core.List.{reverse}

abbrev pub hex_digit : ℕ → ℕ
hex_digit n = if ltb n 10 then b'0' + n else b'a' + (n - 10)

abbrev pub unicode_escape : ℕ → Text
unicode_escape c =
    b'\\'
    ∷ b'u'
    ∷ hex_digit (c / 4096 % 16)
    ∷ hex_digit (c / 256 % 16)
    ∷ hex_digit (c / 16 % 16)
    ∷ hex_digit (c % 16)
    ∷ []

-- One character of a string, as `json.Marshal` writes it: HTML's characters and the two line
-- separators are escaped too.
unfoldable pub escape_char : ℕ → Text
escape_char c =
    if c == b'"' || c == b'\\'
    then b'\\' ∷ c ∷ []
    else if c == 8
    then codes "\\b"
    else if c == 12
    then codes "\\f"
    else if c == 10
    then codes "\\n"
    else if c == 13
    then codes "\\r"
    else if c == 9
    then codes "\\t"
    else if ltb c 32 || c == b'<' || c == b'>' || c == b'&' || c == 0x2028 || c == 0x2029
    then unicode_escape c
    else c ∷ []

unfoldable pub escape : Text → Text
unfolding escape_char
escape [] = []
escape (c ∷ s) = escape_char c ++ escape s

abbrev pub bool_text : Bool → Text
bool_text true = codes "true"
bool_text false = codes "false"

-- `omitempty`: an empty map is left out like a missing one, and so is an empty message.
abbrev pub payload_text : Payload → Text
payload_text no_payload = []
payload_text empty_payload = []
payload_text pong = codes ",\"result\":{\"pong\":true}"

abbrev pub error_text : Text → Text
error_text [] = []
error_text (c ∷ s) = codes ",\"error\":\"" ++ (escape (c ∷ s) ++ codes "\"")

unfoldable pub marshal : Response → Text
unfolding escape
marshal r =
    codes "{\"id\":"
    ++ (show_ℤ r.id
        ++ (codes ",\"ok\":"
            ++ (bool_text r.ok ++ (payload_text r.result ++ (error_text r.error ++ codes "}")))))

-- `writeResp`
unfoldable pub write_resp : Response → Text
unfolding marshal
write_resp r = marshal r ++ (b'\n' ∷ [])

-- The lines that `ReadBytes('\n')` returns without an error, each without its newline. What follows
-- the last newline is dropped with the error.
unfoldable pub read_lines_from : Text → Text → List Text
read_lines_from line [] = []
read_lines_from line (c ∷ s) = elim (c == b'\n') [
  | true ↦ reverse line ∷ read_lines_from [] s
  | false ↦ read_lines_from (c ∷ line) s
]

unfoldable pub read_lines : Text → List Text
unfolding read_lines_from
read_lines s = read_lines_from [] s
