-- ===== src/Tests/DaemonRuns.antt =====
-- The daemon over a firewall that does what netsh.exe is documented to do.
use fastflow_client.Base.{
  ◌-◌, ◌^◌, arith, ◌≡◌, refl, ◌≢◌, ◌⊎◌, Bool, true, false, ◌&&◌, Option, none, some, List, [], ◌∷◌,
  drop, if◌then◌else◌,
}
use fastflow_client.Base.Int.{pos}
use fastflow_client.Base.Text.{Text, codes, text_eq}
use fastflow_client.Net.{mask_ip, mask_bytes, dotted}
use fastflow_client.Daemon.Os.{Os, system32}
use fastflow_client.Daemon.Firewall.{
  Command, block_outbound, allow_outbound, add_rule, delete_rule, netsh, rule_name,
  rule_name_loopback, program_clause, loopback_clause, enable_kill_switch, disable_kill_switch,
}
use fastflow_client.Daemon.Firewall.Switch.{
  IsFirewall, policy_after, rule_after, enable_kill_switch_ok, disable_kill_switch_lem,
}
use fastflow_client.Daemon.Routing.Runs.{range_text, word, add_route-remove_route}
use fastflow_client.Daemon.Routing.{add_route, remove_route}
use fastflow_client.Daemon.Routing.Arguments.{IsSafeRun, add_route-IsSafeRun}
use fastflow_client.Daemon.Ipc.{Request, bool, handle}
use fastflow_client.Daemon.Ipc.Guards.{effective, handle-effective}

pub record Machine : Type 0 where
  pub blocked : Bool
  pub rules : Text → Text → Bool
  pub commands : List (List Text)

abbrev log : List Text → Machine → Machine
log args s = record s { commands = args ∷ s.commands }

-- The commands that netsh.exe is given have five arguments or nine.
abbrev netsh_exe : List Text → Machine → Machine × Option Text
netsh_exe (a ∷ b ∷ c ∷ d ∷ e ∷ []) s =
    if text_eq b (codes "set")
    then (record s { blocked = text_eq e (codes "blockinbound,blockoutbound") }, none)
    else (
      record s { rules = λ n clause. if text_eq (drop 5 e) n then false else s.rules n clause },
      none,
    )
netsh_exe (a ∷ b ∷ c ∷ d ∷ e ∷ f ∷ g ∷ h ∷ i ∷ []) s = (
  record s {
    rules = λ n clause. if text_eq (drop 5 e) n && text_eq h clause then true else s.rules n clause;
  },
  none,
)
netsh_exe args s = (log args s, none)

-- No folders: a path is its last part.
abbrev last_part : List Text → Text
last_part [] = []
last_part (p ∷ []) = p
last_part (p ∷ q ∷ ps) = last_part (q ∷ ps)

abbrev run_tool : Text → List Text → Machine → Machine × Option Text
run_tool tool args s =
    if text_eq tool (codes "netsh.exe") then netsh_exe args s else (log args s, none)

abbrev pub machine : Os
machine = record {
  State = Machine;
  getenv = λ name. [];
  join = last_part;
  quote = λ s. s;
  fold = λ c. c;
  run = run_tool;
}

abbrev pub start : Machine
start = record { blocked = false; rules = λ n clause. false; commands = [] }

abbrev pub is_blocked : Machine → Bool
is_blocked s = s.blocked

abbrev pub allows : Text → Text → Machine → Bool
allows n clause s = s.rules n clause

machine_policy :
    (c : Command) (s : Machine)
    → is_blocked (netsh machine c s).0 ≡ policy_after c (netsh machine c s).1 (is_blocked s)
unfolding netsh codes text_eq
machine_policy block_outbound s = refl
machine_policy allow_outbound s = refl
machine_policy (add_rule n d) s = refl
machine_policy (delete_rule n) s = refl

machine_rules :
    (c : Command) (s : Machine) (n d : Text)
    → allows n d (netsh machine c s).0 ≡ rule_after c (netsh machine c s).1 n d (allows n d s)
unfolding netsh codes text_eq
machine_rules block_outbound s n d = refl
machine_rules allow_outbound s n d = refl
machine_rules (add_rule m e) s n d = refl
machine_rules (delete_rule m) s n d = refl

pub machine-IsFirewall : IsFirewall machine is_blocked allows
machine-IsFirewall = record { policy = machine_policy; rules = machine_rules }

abbrev gui : Text
gui = codes "C:\\FastFlow\\fastflow_vpn.exe"

enable_kill_switch_ok_example :
    (is_blocked (enable_kill_switch machine gui start).0 ≡ true)
    × (allows rule_name_loopback loopback_clause (enable_kill_switch machine gui start).0 ≡ true)
    × ((gui ≡ [])
        ⊎ (allows rule_name (program_clause gui) (enable_kill_switch machine gui start).0 ≡ true))
unfolding enable_kill_switch netsh codes text_eq
enable_kill_switch_ok_example =
    enable_kill_switch_ok machine is_blocked allows machine-IsFirewall gui start refl

disable_kill_switch_lem_example :
    (((disable_kill_switch machine gui start).1 ≡ none)
      × (is_blocked (disable_kill_switch machine gui start).0 ≡ false))
    ⊎ (((disable_kill_switch machine gui start).1 ≢ none)
        × (is_blocked (disable_kill_switch machine gui start).0 ≡ is_blocked start)
        × ((n d : Text) → allows n d (disable_kill_switch machine gui start).0 ≡ allows n d start))
disable_kill_switch_lem_example =
    disable_kill_switch_lem machine is_blocked allows machine-IsFirewall gui start

add_route-IsSafeRun_example :
    IsSafeRun machine start (add_route machine (codes "10.1.2.3/8") (codes "10.0.0.1") start)
add_route-IsSafeRun_example =
    add_route-IsSafeRun machine (codes "10.1.2.3/8") (codes "10.0.0.1") start

add_route-remove_route_example :
    (add_route machine (range_text (10 ∷ 1 ∷ 2 ∷ 3 ∷ []) 8) (dotted (10 ∷ 0 ∷ 0 ∷ 1 ∷ [])) start
      ≡ machine.run
          (system32 machine (codes "route.exe"))
          (codes "ADD"
            ∷ dotted (mask_ip 8 (10 ∷ 1 ∷ 2 ∷ 3 ∷ []))
            ∷ codes "MASK"
            ∷ dotted (mask_bytes 4 8)
            ∷ dotted (10 ∷ 0 ∷ 0 ∷ 1 ∷ [])
            ∷ [])
          start)
    × (remove_route machine (range_text (10 ∷ 1 ∷ 2 ∷ 3 ∷ []) 8) start
        ≡ machine.run
            (system32 machine (codes "route.exe"))
            (codes "DELETE" ∷ dotted (mask_ip 8 (10 ∷ 1 ∷ 2 ∷ 3 ∷ [])) ∷ [])
            start)
    × (word (mask_bytes 4 8) 0 ≡ 2 ^ 32 - 2 ^ (32 - 8))
add_route-remove_route_example =
    add_route-remove_route machine (10 ∷ 1 ∷ 2 ∷ 3 ∷ []) (10 ∷ 0 ∷ 0 ∷ 1 ∷ []) 8 start
      (record { four = refl; bytes = omega arith }) (record { four = refl; bytes = omega arith })
      (omega arith)

abbrev pub on : Request
on = record {
  id = pos 3;
  token = codes "s3cret";
  method = codes "killSwitch";
  params = (codes "enabled", bool true) ∷ [];
}

abbrev lines : List (Option Request)
lines = none ∷ some (record on { token = [] }) ∷ some on ∷ []

handle-effective_example :
    (handle machine (codes "s3cret") gui lines start).0
    ≡ (handle machine (codes "s3cret") gui (effective (codes "s3cret") lines) start).0
handle-effective_example = handle-effective machine (codes "s3cret") gui lines start
