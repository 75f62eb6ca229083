-- ===== src/Daemon/Work.antt =====
-- The requests of windows_daemon/ipc.go command by command: what is left of one at each place
-- where it waits for netsh.exe or route.exe, so that others can come in between.
pub mod Alone
pub mod Bounds
pub mod Invariant
use fastflow_client.Base.{
  ℕ, zero, suc, ◌==◌, length, if◌then◌else◌, Bool, true, false, Option, none, some, List, [], ◌∷◌,
  ◌++◌,
}
use fastflow_client.Base.Calls.{Result, ok, err}
use fastflow_client.Base.Text.{Text, codes, text_eq}
use fastflow_client.Net.{parse_ip, dotted}
use fastflow_client.Daemon.Os.{Os, system32}
use fastflow_client.Daemon.Firewall.{
  Command, block_outbound, allow_outbound, add_rule, delete_rule, arguments, rule_name,
  rule_name_loopback, program_clause, loopback_clause,
}
use fastflow_client.Daemon.Routing.{parse_v4_cidr, gateway_bytes}
use fastflow_client.Daemon.Ipc.{
  Request, Response, no_payload, pong, Method, ping, kill_switch, add_route_method,
  remove_route_method, unknown, method_of, result, invalid_json, bool_param, string_param,
}

-- An answer that is ready, or the next command with its arguments and what follows its result.
pub data Work : Type 0 where
  answers : Response → Work
  runs : Text → List Text → (Option Text → Work) → Work

-- What follows a function with an error result: the rest of its caller.
abbrev pub Rest : Type 0
Rest = Option Text → Work

-- `if err != nil { return err }`, in front of the next command.
abbrev pub unless_error : Rest → Work → Rest
unless_error k next none = next
unless_error k next (some message) = k (some message)

module _ (os : Os) where
  abbrev pub netsh_work : Command → Rest → Work
  netsh_work c k = runs (system32 os (codes "netsh.exe")) (arguments c) k

  abbrev pub route_work : List Text → Rest → Work
  route_work args k = runs (system32 os (codes "route.exe")) args k

  abbrev loopback_work : Rest → Work
  loopback_work k = netsh_work (add_rule rule_name_loopback loopback_clause) k

  unfoldable pub enable_work : Text → Rest → Work
  unfolding system32 arguments
  enable_work app_path k = netsh_work block_outbound (
      unless_error k (
        if length app_path == 0
        then loopback_work k
        else netsh_work (add_rule rule_name (program_clause app_path))
            (unless_error k (loopback_work k))))

  unfoldable pub disable_work : Text → Rest → Work
  unfolding system32 arguments
  disable_work app_path k = netsh_work allow_outbound (
      unless_error k (
        netsh_work (delete_rule rule_name)
          (λ e. netsh_work (delete_rule rule_name_loopback) (λ e. k none))))

  abbrev pub add_via_work : Text → Option (List ℕ) → Text × Text → Rest → Work
  add_via_work gateway none net k = k (some (codes "invalid gateway " ++ os.quote gateway))
  add_via_work gateway (some gw) (ip, mask) k =
      route_work (codes "ADD" ∷ ip ∷ codes "MASK" ∷ mask ∷ dotted gw ∷ []) k

  abbrev pub add_route_to : Text → Result (Text × Text) → Rest → Work
  add_route_to gateway (err message) k = k (some message)
  add_route_to gateway (ok net) k = add_via_work gateway (gateway_bytes os (parse_ip gateway)) net k

  unfoldable pub add_route_work : Text → Text → Rest → Work
  unfolding system32 parse_v4_cidr parse_ip
  add_route_work cidr gateway k = add_route_to gateway (parse_v4_cidr os cidr) k

  abbrev pub remove_route_of : Result (Text × Text) → Rest → Work
  remove_route_of (err message) k = k (some message)
  remove_route_of (ok (ip, mask)) k = route_work (codes "DELETE" ∷ ip ∷ []) k

  unfoldable pub remove_route_work : Text → Rest → Work
  unfolding system32 parse_v4_cidr
  remove_route_work cidr k = remove_route_of (parse_v4_cidr os cidr) k

  unfoldable pub method_work : Method → Request → Text → Work
  unfolding result
  method_work ping req path = answers (record { id = req.id; ok = true; result = pong; error = [] })
  method_work kill_switch req path =
      if bool_param (codes "enabled") req.params
      then enable_work path (λ e. answers (result req.id e))
      else disable_work path (λ e. answers (result req.id e))
  method_work add_route_method req path =
      add_route_work (string_param (codes "cidr") req.params)
        (string_param (codes "gateway") req.params) (λ e. answers (result req.id e))
  method_work remove_route_method req path =
      remove_route_work (string_param (codes "cidr") req.params) (λ e. answers (result req.id e))
  method_work unknown req path = answers (record {
    id = req.id;
    ok = false;
    result = no_payload;
    error = codes "unknown method: " ++ req.method;
  })

  -- `handle`, from a line that it has read.
  unfoldable pub line_work : Text → Text → Option Request → Work
  unfolding method_work method_of
  line_work token path none = answers (invalid_json os)
  line_work token path (some req) =
      if text_eq req.token token
      then method_work (method_of req.method) req path
      else answers
          (record { id = req.id; ok = false; result = no_payload; error = codes "unauthorized" })

  -- Work that nothing interrupts.
  unfoldable pub finish : Work → os.State → os.State × Response
  finish (answers r) s = (s, r)
  finish (runs tool args k) s = finish (k (os.run tool args s).1) (os.run tool args s).0

-- Work that is answered after so many commands at most, whatever they return.
abbrev pub EndsWithin : ℕ → Work → Type 0
EndsWithin n (answers r) = Unit
EndsWithin zero (runs tool args k) = ⊥
EndsWithin (suc n) (runs tool args k) = (e : Option Text) → EndsWithin n (k e)
