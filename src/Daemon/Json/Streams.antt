-- ===== src/Daemon/Json/Streams.antt =====
-- A whole connection of windows_daemon/ipc.go, from the bytes of a client to the bytes of the
-- server, both as code points.
use fastflow_client.Base.{ℕ, ◌≡◌, ◌≢◌, refl, Option, some, List, [], ◌∷◌, ◌++◌, map, All, arith}
use fastflow_client.Base.Int.{FitsInt64}
use fastflow_client.Base.Text.{Text, codes, show_ℤ}
use fastflow_client.Daemon.Os.{Os}
use fastflow_client.Daemon.Ipc.{Request, Params, Value, handle}
use fastflow_client.Daemon.Json.{marshal, read_lines, escape}
use fastflow_client.Daemon.Json.Framing.{
  IsInline, Inline-append, escape-IsInline, show_ℤ-IsInline, bool_text-IsInline, read_lines-flatten,
  read_lines-write_resp,
}
use fastflow_client.Daemon.Json.Decode.{parse_request, parse_lines, handle_stream}
use fastflow_client.Daemon.Json.Strings.{quote}
use fastflow_client.Daemon.Json.Written.{
  value_text, param_text, later_params, params_text, request_line,
}
use fastflow_client.Daemon.Json.Requests.{newest_first, parse_request-request_line}
use mathlib.Core.List.{append_assoc, flatten}
use mathlib.Core.Path.{ap₂, fun_ext}

quote-IsInline : (s : Text) → All IsInline (quote s)
quote-IsInline s =
    (ground arith, Inline-append (escape s) (b'"' ∷ []) (escape-IsInline s) (ground arith))

value_text-IsInline : (v : Value) → All IsInline (value_text v)
unfolding codes
value_text-IsInline (Value.bool b) = bool_text-IsInline b
value_text-IsInline (Value.string s) = quote-IsInline s
value_text-IsInline Value.other = ground arith

param_text-IsInline : (p : Text × Value) → All IsInline (param_text p)
param_text-IsInline (key, v) =
    Inline-append (quote key) (b':' ∷ value_text v) (quote-IsInline key)
      (ground arith, value_text-IsInline v)

later_params-IsInline : (ps : Params) → All IsInline (later_params ps)
later_params-IsInline [] = tt
later_params-IsInline (p ∷ ps) = (
  ground arith,
  Inline-append (param_text p) (later_params ps) (param_text-IsInline p) (later_params-IsInline ps),
)

params_text-IsInline : (ps : Params) → All IsInline (params_text ps)
unfolding codes
params_text-IsInline [] = ground arith
params_text-IsInline (p ∷ ps) = (
  ground arith,
  Inline-append (param_text p) _ (param_text-IsInline p)
      (Inline-append (later_params ps) (codes "}") (later_params-IsInline ps) (ground arith)),
)

-- A request without its newline.
request_text : Request → Text
request_text r =
    codes "{\"id\":"
    ++ (show_ℤ r.id
        ++ (codes ",\"token\":"
            ++ (quote r.token
                ++ (codes ",\"method\":"
                    ++ (quote r.method
                        ++ (codes ",\"params\":" ++ (params_text r.params ++ codes "}")))))))

request_text-IsInline : (r : Request) → All IsInline (request_text r)
unfolding request_text codes
request_text-IsInline r =
    let t1 = params_text r.params ++ codes "}" in
    let t2 = codes ",\"params\":" ++ t1 in
    let t3 = quote r.method ++ t2 in
    let t4 = codes ",\"method\":" ++ t3 in
    let t5 = quote r.token ++ t4 in
    let t6 = codes ",\"token\":" ++ t5 in
    let h1 =
      Inline-append (params_text r.params) (codes "}") (params_text-IsInline r.params)
        (ground arith) in
    let h2 = Inline-append (codes ",\"params\":") t1 (ground arith) h1 in
    let h3 = Inline-append (quote r.method) t2 (quote-IsInline r.method) h2 in
    let h4 = Inline-append (codes ",\"method\":") t3 (ground arith) h3 in
    let h5 = Inline-append (quote r.token) t4 (quote-IsInline r.token) h4 in
    let h6 = Inline-append (codes ",\"token\":") t5 (ground arith) h5 in
    Inline-append (codes "{\"id\":") (show_ℤ r.id ++ t6) (ground arith)
      (Inline-append (show_ℤ r.id) t6 (show_ℤ-IsInline r.id) h6)

closing : codes "}\n" ≡ codes "}" ++ (b'\n' ∷ [])
unfolding codes
closing = refl

request_line-request_text : (r : Request) → request_line r ≡ request_text r ++ (b'\n' ∷ [])
unfolding request_line request_text
request_line-request_text r = simp (closing, append_assoc)

-- A request as the server has it.
abbrev pub received : Request → Option Request
received r = some (record r { params = newest_first r.params [] })

parse_all :
    (fold : ℕ → ℕ) (rs : List Request)
    → All (λ r. FitsInt64 r.id) rs
    → fold b'm' ≢ fold b'p'
    → map (λ line. parse_request fold (line ++ (b'\n' ∷ []))) (map request_text rs)
      ≡ map received rs
parse_all fold [] h k = refl
parse_all fold (r ∷ rs) h k =
    ap₂ ◌∷◌ (rw (← request_line-request_text r) (parse_request-request_line fold r h.0 k))
      (parse_all fold rs h.1 k)

parse_lines-request_line :
    (fold : ℕ → ℕ) (rs : List Request)
    → All (λ r. FitsInt64 r.id) rs
    → fold b'm' ≢ fold b'p'
    → parse_lines fold (flatten (map request_line rs)) ≡ map received rs
unfolding parse_lines
parse_lines-request_line fold rs h k =
    rw (fun_ext request_line-request_text, read_lines-flatten request_text rs request_text-IsInline)
      (parse_all fold rs h k)

-- A client that writes its requests one a line, and reads the answers line by line, has the effect
-- of those requests in their order and gets the encoding of each answer, where the ids are `int`s
-- and case folding keeps "m" and "p" apart.
pub handle_stream-request_line :
    (os : Os) (token path : Text) (rs : List Request) (s : os.State)
    → All (λ r. FitsInt64 r.id) rs
    → os.fold b'm' ≢ os.fold b'p'
    → let (s', out) = handle_stream os token path (flatten (map request_line rs)) s in
      let (s'', resps) = handle os token path (map received rs) s in
      (s' ≡ s'') × (read_lines out ≡ map marshal resps)
unfolding handle_stream
handle_stream-request_line os token path rs s h k =
    rw (parse_lines-request_line os.fold rs h k)
      (refl, read_lines-write_resp (handle os token path (map received rs) s).1)
