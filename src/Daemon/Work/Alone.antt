-- ===== src/Daemon/Work/Alone.antt =====
-- Requests of windows_daemon/ipc.go whose commands nothing interrupts.
use fastflow_client.Base.{◌≡◌, refl, inl, inr, arith, Option, none, some, Bool-cases}
use fastflow_client.Base.Text.{Text, codes, text_eq}
use fastflow_client.Daemon.Os.{Os}
use fastflow_client.Daemon.Firewall.{netsh, enable_kill_switch, disable_kill_switch}
use fastflow_client.Daemon.Routing.{add_route, remove_route}
use fastflow_client.Daemon.Ipc.{
  Request, Method, ping, kill_switch, add_route_method, remove_route_method, unknown, method_of,
  handle_method, dispatch, handle_line, bool_param,
}
use fastflow_client.Daemon.Work.{
  Rest, enable_work, disable_work, add_route_work, remove_route_work, method_work, line_work,
  finish,
}

module _ (os : Os) where
  finish-enable_work :
      (path : Text) (k : Rest) (s : os.State)
      → finish os (enable_work os path k) s
        ≡ finish os (k (enable_kill_switch os path s).1) (enable_kill_switch os path s).0
  unfolding finish enable_work enable_kill_switch netsh
  finish-enable_work path k s = ground arith

  finish-disable_work :
      (path : Text) (k : Rest) (s : os.State)
      → finish os (disable_work os path k) s
        ≡ finish os (k (disable_kill_switch os path s).1) (disable_kill_switch os path s).0
  unfolding finish disable_work disable_kill_switch netsh
  finish-disable_work path k s = ground arith

  finish-add_route_work :
      (cidr gateway : Text) (k : Rest) (s : os.State)
      → finish os (add_route_work os cidr gateway k) s
        ≡ finish os (k (add_route os cidr gateway s).1) (add_route os cidr gateway s).0
  unfolding finish add_route_work add_route
  finish-add_route_work cidr gateway k s = ground arith

  finish-remove_route_work :
      (cidr : Text) (k : Rest) (s : os.State)
      → finish os (remove_route_work os cidr k) s
        ≡ finish os (k (remove_route os cidr s).1) (remove_route os cidr s).0
  unfolding finish remove_route_work remove_route
  finish-remove_route_work cidr k s = ground arith

  finish-method_work :
      (m : Method) (req : Request) (path : Text) (s : os.State)
      → finish os (method_work os m req path) s ≡ handle_method os m req path s
  unfolding finish method_work handle_method
  finish-method_work ping req path s = refl
  finish-method_work kill_switch req path s =
      elim (Bool-cases (bool_param (codes "enabled") req.params)) [
        | inl e ↦ rw e (finish-enable_work path _ s)
        | inr e ↦ rw e (finish-disable_work path _ s)
      ]
  finish-method_work add_route_method req path s = finish-add_route_work _ _ _ s
  finish-method_work remove_route_method req path s = finish-remove_route_work _ _ s
  finish-method_work unknown req path s = refl

  -- A line that is served command by command, with nothing in between, leaves the machine and gives
  -- the response of the round that `handle` makes in one go, on every line and in every state.
  pub finish-line_work :
      (token path : Text) (line : Option Request) (s : os.State)
      → finish os (line_work os token path line) s ≡ handle_line os token path line s
  unfolding finish line_work handle_line dispatch
  finish-line_work token path none s = refl
  finish-line_work token path (some req) s = elim (Bool-cases (text_eq req.token token)) [
    | inl e ↦ rw e (finish-method_work (method_of req.method) req path s)
    | inr e ↦ rw e refl
  ]
