-- ===== src/Tests/JsonRuns.antt =====
-- Requests to the daemon and its responses, as text.
use fastflow_client.Base.{arith, ℕ, some, none, ◌≡◌, refl, true, false, [], ◌∷◌, map}
use fastflow_client.Base.Int.{pos, negsuc}
use fastflow_client.Base.Text.{codes, show_ℤ}
use fastflow_client.Daemon.Ipc.{Request, Value, handle, no_payload, pong}
use fastflow_client.Daemon.Json.{marshal, read_lines, escape}
use fastflow_client.Daemon.Json.Decode.{parse_request, no_request, handle_stream}
use fastflow_client.Daemon.Json.Written.{request_line}
use fastflow_client.Daemon.Json.Requests.{newest_first, parse_request-request_line}
use fastflow_client.Daemon.Json.Streams.{received}
use fastflow_client.Daemon.Json.Scanner.{parse_json}
use fastflow_client.Daemon.Json.Responses.{response_json, handle_stream-response_json}
use fastflow_client.Tests.DaemonRuns.{machine, start}
use mathlib.Core.List.{flatten}

pong_text :
    marshal (record { id = pos 7; ok = true; result = pong; error = [] })
    ≡ codes "{\"id\":7,\"ok\":true,\"result\":{\"pong\":true}}"
unfolding marshal codes show_ℤ
pong_text = refl

error_text_escaped :
    marshal (record { id = pos 8; ok = false; result = no_payload; error = codes "a\n\"b\"<" })
    ≡ codes "{\"id\":8,\"ok\":false,\"error\":\"a\\n\\\"b\\\"\\u003c\"}"
unfolding marshal codes show_ℤ
error_text_escaped = refl

hears_pong :
    read_lines (codes "{\"id\":7,\"ok\":true,\"result\":{\"pong\":true}}\n{\"id\"")
    ≡ codes "{\"id\":7,\"ok\":true,\"result\":{\"pong\":true}}" ∷ []
unfolding read_lines codes
hears_pong = refl

abbrev plain : ℕ → ℕ
plain c = c

reads_request :
    parse_request plain (
      codes
        "{\"id\":12, \"token\":\"a\\u0062\\\"\",\"method\":\"addRoute\",\"x\":[1,{}],\"params\":{\"cidr\":\"10.0.0.0/8\",\"n\":-1.5e3,\"on\":true}}")
    ≡ some (record {
      id = pos 12;
      token = codes "ab\"";
      method = codes "addRoute";
      params =
          (codes "on", Value.bool true)
          ∷ (codes "n", Value.other)
          ∷ (codes "cidr", Value.string (codes "10.0.0.0/8"))
          ∷ [];
    })
unfolding parse_request codes
reads_request = refl

refuses :
    (parse_request plain (codes "{\"id\":1.0}") ≡ none)
    × (parse_request plain (codes "{\"id\":01}") ≡ none)
    × (parse_request plain (codes "[]") ≡ none)
    × (parse_request plain (codes "{\"id\":1,}") ≡ none)
    × (parse_request plain (codes "{\"params\":{\"x\":[1e309]}}") ≡ none)
    × (parse_request plain (codes "{\"x\":[1e309]} ") ≡ some no_request)
    × (parse_request plain (codes "null") ≡ some no_request)
    × (parse_request plain (codes "{\"id\":9223372036854775808}") ≡ none)
unfolding parse_request codes
refuses = (refl, refl, refl, refl, refl, refl, refl, refl)

abbrev request : Request
request = record {
  id = negsuc 6;
  token = codes "s3cret";
  method = codes "killSwitch";
  params =
      (codes "enabled", Value.bool true)
      ∷ (codes "appPath", Value.string (codes "C:\\evil.exe"))
      ∷ [];
}

request_text :
    request_line request
    ≡ codes
        "{\"id\":-7,\"token\":\"s3cret\",\"method\":\"killSwitch\",\"params\":{\"enabled\":true,\"appPath\":\"C:\\\\evil.exe\"}}\n"
unfolding request_line codes show_ℤ escape
request_text = refl

parse_request-request_line_example :
    parse_request plain (request_line request)
    ≡ some (record request { params = newest_first request.params [] })
parse_request-request_line_example =
    parse_request-request_line plain request (omega arith) (λ e. omega arith)

handle_stream-response_json_example :
    ((handle_stream machine
        (codes "s3cret")
        (codes "gui.exe")
        (flatten (map request_line (request ∷ request ∷ [])))
        start).0
      ≡ (handle machine
          (codes "s3cret")
          (codes "gui.exe")
          (map received (request ∷ request ∷ []))
          start).0)
    × (map parse_json (
          read_lines
            (handle_stream machine
              (codes "s3cret")
              (codes "gui.exe")
              (flatten (map request_line (request ∷ request ∷ [])))
              start).1)
        ≡ map
            (λ r. some (response_json r))
            (handle machine
              (codes "s3cret")
              (codes "gui.exe")
              (map received (request ∷ request ∷ []))
              start).1)
handle_stream-response_json_example =
    handle_stream-response_json machine (codes "s3cret") (codes "gui.exe") (request ∷ request ∷ [])
      start ((omega arith, omega arith), ((omega arith, omega arith), tt)) (λ e. omega arith)
