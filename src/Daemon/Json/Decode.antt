-- ===== src/Daemon/Json/Decode.antt =====
-- `json.Unmarshal(line, &req)` of windows_daemon/ipc.go: a value goes into the fields of `request`,
-- by the rules of `encoding/json`. An error is `none`, since the caller then forgets `req`.
use fastflow_client.Base.{
  ℕ, ◌+◌, ◌*◌, ◌-◌, ◌^◌, Bool, true, not, ◌&&◌, Option, none, some, List, [], ◌∷◌, ◌++◌, ◌==◌, leb,
  ltb, if◌then◌else◌,
}
use fastflow_client.Base.Int.{ℤ, pos, negsuc}
use fastflow_client.Base.Text.{Text, codes}
use fastflow_client.Daemon.Os.{Os}
use fastflow_client.Daemon.Security.{equal_fold}
use fastflow_client.Daemon.Ipc.{Request, Params, Value, handle}
use fastflow_client.Daemon.Json.{read_lines, write_resp}
use fastflow_client.Daemon.Json.Syntax.{
  Json, null, bool, number, string, array, object, Items, no_items, item, Members, no_members,
  member, Literal,
}
use fastflow_client.Daemon.Json.Scanner.{parse_json}
use mathlib.Core.List.{flatten}
use fastflow_client.Base.{map}

-- The least magnitude that `ParseFloat` rounds up to infinity.
abbrev float_limit : ℕ
float_limit = 2 ^ 1024 - 2 ^ 970

-- Whether a literal is a `float64`.
unfoldable pub is_float : Literal → Bool
is_float l =
    if l.down
    then ltb l.digits (float_limit * 10 ^ (l.behind + l.exponent))
    else ltb (l.digits * 10 ^ l.exponent) (float_limit * 10 ^ l.behind)

-- `ParseInt(literal, 10, 64)`
unfoldable pub int_of : Literal → Option ℤ
int_of l =
    if not l.whole
    then none
    else if l.negative
    then (if l.digits == 0
        then some (pos 0)
        else if leb l.digits (2 ^ 63)
        then some (negsuc (l.digits - 1))
        else none)
    else if ltb l.digits (2 ^ 63)
    then some (pos l.digits)
    else none

-- Whether every number in a value is a `float64`, as an `interface{}` wants.
unfoldable mutual
  unfolding is_float

  pub has_floats : Json → Bool
  has_floats (number l) = is_float l
  has_floats (array items) = have_floats items
  has_floats (object members) = members_have_floats members
  has_floats _ = true

  pub have_floats : Items → Bool
  have_floats no_items = true
  have_floats (item items v) = have_floats items && has_floats v

  pub members_have_floats : Members → Bool
  members_have_floats no_members = true
  members_have_floats (member members key v) = members_have_floats members && has_floats v

-- A value of `map[string]interface{}`, as far as the handlers look.
unfoldable pub value_of : Json → Option Value
unfolding has_floats
value_of (bool b) = some (Value.bool b)
value_of (string s) = some (Value.string s)
value_of v = if has_floats v then some Value.other else none

abbrev pub push_param : Text → Option Value → Params → Option Params
push_param key none params = none
push_param key (some v) params = some ((key, v) ∷ params)

-- An object goes into the map: a later member of a key comes before an earlier one.
unfoldable pub store_members : Members → Params → Option Params
unfolding value_of
store_members no_members params = some params
store_members (member members key v) params = elim (store_members members params) [
  | none ↦ none
  | some ps ↦ push_param key (value_of v) ps
]

abbrev pub with_params : Request → Option Params → Option Request
with_params req none = none
with_params req (some ps) = some (record req { params = ps })

abbrev pub with_id : Request → Option ℤ → Option Request
with_id req none = none
with_id req (some id) = some (record req { id = id })

-- `null` leaves an integer or a string as it is, and makes a map nil.
abbrev pub store_id : Json → Request → Option Request
store_id null req = some req
store_id (number l) req = with_id req (int_of l)
store_id _ req = none

abbrev pub store_token : Json → Request → Option Request
store_token null req = some req
store_token (string s) req = some (record req { token = s })
store_token _ req = none

abbrev pub store_method : Json → Request → Option Request
store_method null req = some req
store_method (string s) req = some (record req { method = s })
store_method _ req = none

abbrev pub store_params : Json → Request → Option Request
store_params null req = some (record req { params = [] })
store_params (object members) req = with_params req (store_members members req.params)
store_params _ req = none

-- The field whose name equals the key, up to the case of letters; other members are skipped.
abbrev pub store_field : (ℕ → ℕ) → Text → Json → Request → Option Request
store_field fold key v req =
    if equal_fold fold (codes "id") key
    then store_id v req
    else if equal_fold fold (codes "token") key
    then store_token v req
    else if equal_fold fold (codes "method") key
    then store_method v req
    else if equal_fold fold (codes "params") key
    then store_params v req
    else some req

abbrev pub no_request : Request
no_request = record { id = pos 0; token = []; method = []; params = [] }

unfoldable pub store_fields : (ℕ → ℕ) → Members → Option Request
unfolding equal_fold int_of store_members
store_fields fold no_members = some no_request
store_fields fold (member members key v) = elim (store_fields fold members) [
  | none ↦ none
  | some req ↦ store_field fold key v req
]

abbrev pub request_of : (ℕ → ℕ) → Option Json → Option Request
request_of fold (some (object members)) = store_fields fold members
request_of fold (some null) = some no_request
request_of fold _ = none

unfoldable pub parse_request : (ℕ → ℕ) → Text → Option Request
unfolding store_fields parse_json
parse_request fold line = request_of fold (parse_json line)

-- A line comes to `Unmarshal` with its newline.
unfoldable pub parse_lines : (ℕ → ℕ) → Text → List (Option Request)
unfolding parse_request read_lines
parse_lines fold input = map (λ line. parse_request fold (line ++ (b'\n' ∷ []))) (read_lines input)

-- `handle`: what the server does with all that a client sends before it leaves, and what it writes.
unfoldable pub handle_stream : (os : Os) → Text → Text → Text → os.State → os.State × Text
unfolding parse_lines handle
handle_stream os token path input s =
    let (s', resps) = handle os token path (parse_lines os.fold input) s in
    (s', flatten (map write_resp resps))
