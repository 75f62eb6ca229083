-- ===== src/Daemon/Ipc.antt =====
-- windows_daemon/ipc.go: the requests, their dispatch, and the loop of one connection.
pub mod Guards
use fastflow_client.Base.{
  ℕ, Bool, true, false, Option, none, some, List, [], ◌∷◌, ◌++◌, if◌then◌else◌,
}
use fastflow_client.Base.Int.{ℤ, pos}
use fastflow_client.Base.Text.{Text, codes, text_eq}
use fastflow_client.Daemon.Os.{Os, Action}
use fastflow_client.Daemon.Firewall.{enable_kill_switch, disable_kill_switch}
use fastflow_client.Daemon.Routing.{add_route, remove_route}

-- A value of `map[string]interface{}`, as far as the handlers look: any other kind fails both of
-- their type assertions.
pub data Value : Type 0 where
  bool : Bool → Value
  string : Text → Value
  other : Value

abbrev pub Params : Type 0
Params = List (Text × Value)

pub record Request : Type 0 where
  pub id : ℤ
  pub token : Text
  pub method : Text
  pub params : Params

-- The two maps that a response carries; `none` is no map.
pub data Payload : Type 0 where
  no_payload empty_payload pong : Payload

pub record Response : Type 0 where
  pub id : ℤ
  pub ok : Bool
  pub result : Payload
  pub error : Text

unfoldable pub param : Text → Params → Option Value
param key [] = none
param key ((k, v) ∷ rest) = let later = param key rest in if text_eq k key then some v else later

-- `req.Params[key].(bool)` and `req.Params[key].(string)`, with Go's zero value where they fail.
abbrev bool_or_zero : Option Value → Bool
bool_or_zero (some (bool b)) = b
bool_or_zero _ = false

abbrev string_or_zero : Option Value → Text
string_or_zero (some (string s)) = s
string_or_zero _ = []

unfoldable pub bool_param : Text → Params → Bool
unfolding param
bool_param key params = bool_or_zero (param key params)

unfoldable pub string_param : Text → Params → Text
unfolding param
string_param key params = string_or_zero (param key params)

-- `result`
unfoldable pub result : ℤ → Option Text → Response
result id none = record { id = id; ok = true; result = empty_payload; error = [] }
result id (some message) = record { id = id; ok = false; result = no_payload; error = message }

pub data Method : Type 0 where
  ping kill_switch add_route_method remove_route_method unknown : Method

-- The cases of the `switch` in `dispatch`.
unfoldable pub method_of : Text → Method
method_of m =
    if text_eq m (codes "ping")
    then ping
    else if text_eq m (codes "killSwitch")
    then kill_switch
    else if text_eq m (codes "addRoute")
    then add_route_method
    else if text_eq m (codes "removeRoute")
    then remove_route_method
    else unknown

module _ (os : Os) where
  -- A response, of an action's error.
  abbrev respond : ℤ → os.State × Option Text → os.State × Response
  respond id (s, error) = (s, result id error)

  abbrev kill_switch_of : Bool → Text → Action os
  kill_switch_of true path = enable_kill_switch os path
  kill_switch_of false path = disable_kill_switch os path

  unfoldable pub handle_method : Method → Request → Text → os.State → os.State × Response
  unfolding result
  handle_method ping req path s = (s, record { id = req.id; ok = true; result = pong; error = [] })
  handle_method kill_switch req path s =
      respond req.id (kill_switch_of (bool_param (codes "enabled") req.params) path s)
  handle_method add_route_method req path s = respond req.id (
      add_route os (string_param (codes "cidr") req.params)
        (string_param (codes "gateway") req.params) s)
  handle_method remove_route_method req path s =
      respond req.id (remove_route os (string_param (codes "cidr") req.params) s)
  handle_method unknown req path s = (
    s,
    record {
      id = req.id;
      ok = false;
      result = no_payload;
      error = codes "unknown method: " ++ req.method;
    },
  )

  -- The server's token, and the verified image of the peer.
  unfoldable pub dispatch : Text → Text → Request → os.State → os.State × Response
  unfolding handle_method method_of
  dispatch token path req s =
      if text_eq req.token token then handle_method (method_of req.method) req path s else (
        s,
        record { id = req.id; ok = false; result = no_payload; error = codes "unauthorized" },
      )

  abbrev pub invalid_json : Response
  invalid_json = record {
    id = pos 0;
    ok = false;
    result = no_payload;
    error = codes "invalid json";
  }

  -- One round of the loop in `handle`, for a line that `json.Unmarshal` reads as a request or not.
  unfoldable pub handle_line : Text → Text → Option Request → os.State → os.State × Response
  unfolding dispatch
  handle_line token path none s = (s, invalid_json)
  handle_line token path (some req) s = dispatch token path req s

  -- The loop in `handle`, over the lines that the client ends before it leaves, with the responses
  -- in the order in which they are written.
  unfoldable pub handle : Text → Text → List (Option Request) → os.State → os.State × List Response
  handle token path [] s = (s, [])
  handle token path (line ∷ lines) s =
      let (s', resp) = handle_line token path line s in
      let (s'', resps) = handle token path lines s' in (s'', resp ∷ resps)
