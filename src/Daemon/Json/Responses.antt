-- ===== src/Daemon/Json/Responses.antt =====
-- What a client reads of a response that windows_daemon/ipc.go writes, by the syntax of JSON.
use fastflow_client.Base.{
  ◌≡◌, ◌≢◌, refl, ap, ◌∙◌, All, map, Bool, true, false, some, List, [], ◌∷◌, ◌++◌,
}
use mathlib.Core.Path.{ap₂}
use fastflow_client.Base.Int.{FitsInt64}
use fastflow_client.Base.Text.{Text, codes}
use fastflow_client.Daemon.Ipc.{Request, handle, Response, Payload, no_payload, empty_payload, pong}
use fastflow_client.Daemon.Json.{bool_text, payload_text, error_text, marshal, read_lines}
use fastflow_client.Daemon.Json.Syntax.{
  Json, bool, number, string, object, Members, no_members, member,
}
use fastflow_client.Daemon.Json.Modes.{in_object, begin_members, finished}
use fastflow_client.Daemon.Json.Scanner.{scan, parse_json}
use fastflow_client.Daemon.Json.Strings.{run, run-string}
use fastflow_client.Daemon.Json.Written.{literal_of, run-show_ℤ, request_line}
use fastflow_client.Daemon.Os.{Os}
use fastflow_client.Daemon.Json.Decode.{handle_stream}
use fastflow_client.Daemon.Json.Streams.{received, handle_stream-request_line}
use mathlib.Core.List.{flatten}

-- The members of a response: the map and the message only where there is one.
abbrev pub with_result : Payload → Members → Members
with_result pong ms =
    member ms (codes "result") (object (member no_members (codes "pong") (bool true)))
with_result _ ms = ms

abbrev pub with_error : Text → Members → Members
with_error [] ms = ms
with_error (c ∷ s) ms = member ms (codes "error") (string (c ∷ s))

abbrev pub response_json : Response → Json
response_json r = object (
    with_error r.error (
      with_result r.result (
        member (member no_members (codes "id") (number (literal_of r.id))) (codes "ok")
          (bool r.ok))))

run-error_text :
    (e : Text) (v : Json) (ms : Members) (key : Text)
    → run (finished v) (in_object ms key ∷ []) (error_text e ++ codes "}")
      ≡ some (object (with_error e (member ms key v)))
unfolding scan codes
run-error_text [] v ms key = refl
run-error_text (c ∷ s) v ms key =
    run-string (c ∷ s) (in_object (member ms key v) (codes "error") ∷ []) (codes "}")

run-payload_text :
    (p : Payload) (e : Text) (v : Json) (ms : Members) (key : Text)
    → run (finished v) (in_object ms key ∷ []) (payload_text p ++ (error_text e ++ codes "}"))
      ≡ some (object (with_error e (with_result p (member ms key v))))
unfolding scan codes
run-payload_text no_payload e v ms key = run-error_text e v ms key
run-payload_text empty_payload e v ms key = run-error_text e v ms key
run-payload_text pong e v ms key = run-error_text e _ (member ms key v) (codes "result")

run-ok :
    (b : Bool) (p : Payload) (e : Text) (ms : Members)
    → run
        (begin_members ms false)
        []
        (codes "\"ok\":" ++ (bool_text b ++ (payload_text p ++ (error_text e ++ codes "}"))))
      ≡ some (object (with_error e (with_result p (member ms (codes "ok") (bool b)))))
unfolding scan codes
run-ok true p e ms = run-payload_text p e (bool true) ms (codes "ok")
run-ok false p e ms = run-payload_text p e (bool false) ms (codes "ok")

-- Every response is written as one value of JSON: an object with the id and the outcome, the result
-- where it is not empty, and the message where there is one, which is read back as it was.
pub parse_json-marshal : (r : Response) → parse_json (marshal r) ≡ some (response_json r)
unfolding parse_json marshal codes scan
parse_json-marshal r =
    run-show_ℤ r.id no_members (codes "id") [] (
      codes "\"ok\":"
      ++ (bool_text r.ok ++ (payload_text r.result ++ (error_text r.error ++ codes "}"))))
    ∙ run-ok r.ok r.result r.error (member no_members (codes "id") (number (literal_of r.id)))

map-parse_json :
    (rs : List Response) → map parse_json (map marshal rs) ≡ map (λ r. some (response_json r)) rs
map-parse_json [] = refl
map-parse_json (r ∷ rs) = ap₂ ◌∷◌ (parse_json-marshal r) (map-parse_json rs)

-- A client that writes its requests one a line, and reads the answers line by line as JSON, has the
-- effect of those requests in their order, and reads of each answer the object with its id, its
-- outcome, its result and its message, where the ids are `int`s and case folding keeps "m" and "p"
-- apart.
pub handle_stream-response_json :
    (os : Os) (token path : Text) (rs : List Request) (s : os.State)
    → All (λ r. FitsInt64 r.id) rs
    → os.fold b'm' ≢ os.fold b'p'
    → let (s', out) = handle_stream os token path (flatten (map request_line rs)) s in
      let (s'', resps) = handle os token path (map received rs) s in
      (s' ≡ s'') × (map parse_json (read_lines out) ≡ map (λ r. some (response_json r)) resps)
handle_stream-response_json os token path rs s h k =
    let resps = (handle os token path (map received rs) s).1 in
    let (same, lines) = handle_stream-request_line os token path rs s h k in
    (same, ap (map parse_json) lines ∙ map-parse_json resps)
