-- ===== src/Daemon/Work/Bounds.antt =====
-- How many commands a request of windows_daemon/ipc.go runs.
use fastflow_client.Base.{
  ℕ, ◌==◌, length, if◌then◌else◌, Bool, true, false, Option, none, some, List,
}
use fastflow_client.Base.Calls.{Result, ok, err}
use fastflow_client.Base.Text.{Text, codes, text_eq}
use fastflow_client.Net.{parse_ip}
use fastflow_client.Daemon.Os.{Os}
use fastflow_client.Daemon.Routing.{parse_v4_cidr, gateway_bytes}
use fastflow_client.Daemon.Ipc.{
  Request, Method, ping, kill_switch, add_route_method, remove_route_method, unknown, method_of,
  bool_param,
}
use fastflow_client.Daemon.Work.{
  Work, Rest, unless_error, enable_work, disable_work, add_via_work, add_route_to, add_route_work,
  remove_route_of, remove_route_work, method_work, line_work, EndsWithin,
}

-- Behind the last command there is no other.
abbrev Answers : Rest → Type 0
Answers k = (n : ℕ) (e : Option Text) → EndsWithin n (k e)

unless_error-EndsWithin :
    (n : ℕ) (k : Rest) (next : Work)
    → Answers k
    → EndsWithin n next
    → (e : Option Text) → EndsWithin n (unless_error k next e)
unless_error-EndsWithin n k next a h none = h
unless_error-EndsWithin n k next a h (some m) = a n (some m)

either-EndsWithin :
    (n : ℕ) (b : Bool) (v w : Work)
    → EndsWithin n v
    → EndsWithin n w
    → EndsWithin n (if b then v else w)
either-EndsWithin n true v w hv hw = hv
either-EndsWithin n false v w hv hw = hw

module _ (os : Os) where
  enable_work-EndsWithin :
      (path : Text) (k : Rest) → Answers k → EndsWithin 3 (enable_work os path k)
  unfolding enable_work
  enable_work-EndsWithin path k a =
      unless_error-EndsWithin 2 k _ a
        (either-EndsWithin 2 (length path == 0) _ _ (a 1) (unless_error-EndsWithin 1 k _ a (a 0)))

  disable_work-EndsWithin :
      (path : Text) (k : Rest) → Answers k → EndsWithin 3 (disable_work os path k)
  unfolding disable_work
  disable_work-EndsWithin path k a = unless_error-EndsWithin 2 k _ a (λ e f. a 0 none)

  add_route_to-EndsWithin :
      (gateway : Text) (net : Result (Text × Text)) (k : Rest)
      → Answers k
      → EndsWithin 3 (add_route_to os gateway net k)
  add_route_to-EndsWithin gateway (err m) k a = a 3 (some m)
  add_route_to-EndsWithin gateway (ok net) k a = go (gateway_bytes os (parse_ip gateway)) net
    where
      go :
          (g : Option (List ℕ)) (net : Text × Text) → EndsWithin 3 (add_via_work os gateway g net k)
      go none net = a 3 _
      go (some gw) (ip, mask) = a 2

  remove_route_of-EndsWithin :
      (net : Result (Text × Text)) (k : Rest) → Answers k → EndsWithin 3 (remove_route_of os net k)
  remove_route_of-EndsWithin (err m) k a = a 3 (some m)
  remove_route_of-EndsWithin (ok (ip, mask)) k a = a 2

  add_route_work-EndsWithin :
      (cidr gateway : Text) (k : Rest) → Answers k → EndsWithin 3 (add_route_work os cidr gateway k)
  unfolding add_route_work
  add_route_work-EndsWithin cidr gateway k a =
      add_route_to-EndsWithin gateway (parse_v4_cidr os cidr) k a

  remove_route_work-EndsWithin :
      (cidr : Text) (k : Rest) → Answers k → EndsWithin 3 (remove_route_work os cidr k)
  unfolding remove_route_work
  remove_route_work-EndsWithin cidr k a = remove_route_of-EndsWithin (parse_v4_cidr os cidr) k a

  method_work-EndsWithin :
      (m : Method) (req : Request) (path : Text) → EndsWithin 3 (method_work os m req path)
  unfolding method_work
  method_work-EndsWithin ping req path = tt
  method_work-EndsWithin kill_switch req path =
      either-EndsWithin 3 (bool_param (codes "enabled") req.params) _ _
        (enable_work-EndsWithin path _ (λ n e. tt)) (disable_work-EndsWithin path _ (λ n e. tt))
  method_work-EndsWithin add_route_method req path = add_route_work-EndsWithin _ _ _ (λ n e. tt)
  method_work-EndsWithin remove_route_method req path = remove_route_work-EndsWithin _ _ (λ n e. tt)
  method_work-EndsWithin unknown req path = tt

  -- Every line is answered after three commands at most, whatever the commands return and whatever
  -- happens between them.
  pub line_work-EndsWithin :
      (token path : Text) (line : Option Request) → EndsWithin 3 (line_work os token path line)
  unfolding line_work
  line_work-EndsWithin token path none = tt
  line_work-EndsWithin token path (some req) =
      either-EndsWithin 3 (text_eq req.token token) _ _
        (method_work-EndsWithin (method_of req.method) req path) tt
