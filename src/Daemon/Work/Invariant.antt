-- ===== src/Daemon/Work/Invariant.antt =====
-- What a request of windows_daemon/ipc.go keeps true of the machine, wherever others come between
-- its commands, from what each of its commands keeps true.
use fastflow_client.Base.{
  ℕ, ◌≡◌, refl, Bool, true, false, Option, none, some, List, if◌then◌else◌, ◌==◌, length,
}
use fastflow_client.Base.Calls.{Result, ok, err}
use fastflow_client.Base.Text.{Text, codes, text_eq}
use fastflow_client.Daemon.Os.{Os, Action, system32}
use fastflow_client.Daemon.Firewall.{
  Command, block_outbound, allow_outbound, add_rule, delete_rule, netsh, rule_name,
  rule_name_loopback, program_clause, loopback_clause,
}
use fastflow_client.Daemon.Routing.{parse_v4_cidr, gateway_bytes}
use fastflow_client.Net.{parse_ip}
use fastflow_client.Daemon.Ipc.{
  Request, Method, ping, unknown, kill_switch, add_route_method, remove_route_method, method_of,
  bool_param,
}
use fastflow_client.Daemon.Work.{
  Work, Rest, answers, runs, unless_error, netsh_work, enable_work, disable_work, add_via_work,
  add_route_to, add_route_work, remove_route_of, remove_route_work, method_work, line_work, finish,
}

-- A request that shows the secret and switches the kill switch on or off.
abbrev pub Switches : Text → Bool → Request → Type 0
Switches token b req =
    (text_eq req.token token ≡ true)
    × (method_of req.method ≡ kill_switch)
    × (bool_param (codes "enabled") req.params ≡ b)

-- A line that is such a request to switch it off.
abbrev pub SwitchesOff : Text → Option Request → Type 0
SwitchesOff token none = ⊥
SwitchesOff token (some req) = Switches token false req

module _ (os : Os) (I : os.State → Type 0) where
  abbrev pub Keeps : Action os → Type 0
  Keeps f = (s : os.State) → I s → I (f s).0

  -- What is left of a request keeps `I`, whatever its commands return.
  abbrev pub Preserves : Work → Type 0
  Preserves (answers r) = Unit
  Preserves (runs tool args k) = Keeps (os.run tool args) × ((e : Option Text) → Preserves (k e))

  -- The commands of the two functions of firewall.go, and those of routing.go.
  pub record EnableKeeps (path : Text) : Type 0 where
    pub block : Keeps (netsh os block_outbound)
    pub program : Keeps (netsh os (add_rule rule_name (program_clause path)))
    pub loopback : Keeps (netsh os (add_rule rule_name_loopback loopback_clause))

  pub record DisableKeeps : Type 0 where
    pub allow : Keeps (netsh os allow_outbound)
    pub delete : (n : Text) → Keeps (netsh os (delete_rule n))

  abbrev pub RouteKeeps : Type 0
  RouteKeeps = (args : List Text) → Keeps (os.run (system32 os (codes "route.exe")) args)

  netsh_work-Preserves :
      (c : Command) (k : Rest)
      → Keeps (netsh os c)
      → ((e : Option Text) → Preserves (k e))
      → Preserves (netsh_work os c k)
  unfolding netsh
  netsh_work-Preserves c k keeps h = (keeps, h)

  unless_error-Preserves :
      (k : Rest) (next : Work)
      → ((e : Option Text) → Preserves (k e))
      → Preserves next
      → (e : Option Text) → Preserves (unless_error k next e)
  unless_error-Preserves k next h n none = n
  unless_error-Preserves k next h n (some m) = h (some m)

  either-Preserves :
      (b : Bool) (v w : Work)
      → (b ≡ true → Preserves v)
      → (b ≡ false → Preserves w)
      → Preserves (if b then v else w)
  either-Preserves true v w hv hw = hv refl
  either-Preserves false v w hv hw = hw refl

  module _ (k : Rest) (h : (e : Option Text) → Preserves (k e)) where
    enable_work-Preserves : (path : Text) → EnableKeeps path → Preserves (enable_work os path k)
    unfolding enable_work
    enable_work-Preserves path c =
        let loopback = netsh_work-Preserves _ k c.loopback h in
        netsh_work-Preserves block_outbound _ c.block (
          unless_error-Preserves k _ h (
            either-Preserves (length path == 0) _ _ (λ e. loopback)
              (λ e. netsh_work-Preserves _ _ c.program (unless_error-Preserves k _ h loopback))))

    disable_work-Preserves : (path : Text) → DisableKeeps → Preserves (disable_work os path k)
    unfolding disable_work
    disable_work-Preserves path c = netsh_work-Preserves allow_outbound _ c.allow (
        unless_error-Preserves k _ h (
          netsh_work-Preserves _ (λ e. netsh_work os (delete_rule rule_name_loopback) (λ f. k none))
            (c.delete rule_name)
            (λ e. netsh_work-Preserves _ _ (c.delete rule_name_loopback) (λ f. h none))))

    module _ (route : RouteKeeps) where
      add_via_work-Preserves :
          (gateway : Text) (g : Option (List ℕ)) (net : Text × Text)
          → Preserves (add_via_work os gateway g net k)
      add_via_work-Preserves gateway none net = h _
      add_via_work-Preserves gateway (some gw) (ip, mask) = (route _, h)

      add_route_to-Preserves :
          (gateway : Text) (net : Result (Text × Text)) → Preserves (add_route_to os gateway net k)
      add_route_to-Preserves gateway (err m) = h (some m)
      add_route_to-Preserves gateway (ok net) =
          add_via_work-Preserves gateway (gateway_bytes os (parse_ip gateway)) net

      add_route_work-Preserves :
          (cidr gateway : Text) → Preserves (add_route_work os cidr gateway k)
      unfolding add_route_work
      add_route_work-Preserves cidr gateway = add_route_to-Preserves gateway (parse_v4_cidr os cidr)

      remove_route_of-Preserves :
          (net : Result (Text × Text)) → Preserves (remove_route_of os net k)
      remove_route_of-Preserves (err m) = h (some m)
      remove_route_of-Preserves (ok (ip, mask)) = (route _, h)

      remove_route_work-Preserves : (cidr : Text) → Preserves (remove_route_work os cidr k)
      unfolding remove_route_work
      remove_route_work-Preserves cidr = remove_route_of-Preserves (parse_v4_cidr os cidr)

  module _ (token path : Text) (route : RouteKeeps) (enable : EnableKeeps path) where
    method_work-Preserves :
        (m : Method) (req : Request)
        → (m ≡ kill_switch → bool_param (codes "enabled") req.params ≡ false → DisableKeeps)
        → Preserves (method_work os m req path)
    unfolding method_work
    method_work-Preserves ping req d = tt
    method_work-Preserves kill_switch req d =
        either-Preserves (bool_param (codes "enabled") req.params) _ _
          (λ e. enable_work-Preserves _ (λ f. tt) path enable)
          (λ e. disable_work-Preserves _ (λ f. tt) path (d refl e))
    method_work-Preserves add_route_method req d = add_route_work-Preserves _ (λ e. tt) route _ _
    method_work-Preserves remove_route_method req d =
        remove_route_work-Preserves _ (λ e. tt) route _
    method_work-Preserves unknown req d = tt

    pub line_work-Preserves :
        (line : Option Request)
        → (SwitchesOff token line → DisableKeeps)
        → Preserves (line_work os token path line)
    unfolding line_work
    line_work-Preserves none d = tt
    line_work-Preserves (some req) d =
        either-Preserves (text_eq req.token token) _ _
          (λ t. method_work-Preserves (method_of req.method) req (λ m e. d (t, m, e))) (λ t. tt)

  pub finish-Preserves : (w : Work) (s : os.State) → Preserves w → I s → I (finish os w s).0
  unfolding finish
  finish-Preserves (answers r) s h i = i
  finish-Preserves (runs tool args k) s h i =
      finish-Preserves (k (os.run tool args s).1) (os.run tool args s).0 (h.1 _) (h.0 s i)
