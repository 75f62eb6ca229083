-- ===== src/Daemon/Firewall.antt =====
-- windows_daemon/firewall.go: the kill switch, by way of netsh.exe.
pub mod Switch
use fastflow_client.Base.{ℕ, Option, none, some, List, [], ◌∷◌, ◌++◌, length, ◌==◌, if◌then◌else◌}
use fastflow_client.Base.Text.{Text, codes}
use fastflow_client.Daemon.Os.{Os, Action, and_then, ignoring, system32}

abbrev pub rule_name : Text
rule_name = codes "FastFlow-Engine-Out"

abbrev pub rule_name_loopback : Text
rule_name_loopback = codes "FastFlow-Engine-Out-Loopback"

-- The commands that the two functions give to netsh.exe. A rule has its name and the clause that
-- says what it allows.
pub data Command : Type 0 where
  block_outbound allow_outbound : Command
  add_rule : Text → Text → Command
  delete_rule : Text → Command

abbrev policy : Text → List Text
policy name =
    codes "advfirewall" ∷ codes "set" ∷ codes "allprofiles" ∷ codes "firewallpolicy" ∷ name ∷ []

unfoldable pub arguments : Command → List Text
arguments block_outbound = policy (codes "blockinbound,blockoutbound")
arguments allow_outbound = policy (codes "blockinbound,allowoutbound")
arguments (add_rule name clause) =
    codes "advfirewall"
    ∷ codes "firewall"
    ∷ codes "add"
    ∷ codes "rule"
    ∷ (codes "name=" ++ name)
    ∷ codes "dir=out"
    ∷ codes "action=allow"
    ∷ clause
    ∷ codes "enable=yes"
    ∷ []
arguments (delete_rule name) =
    codes "advfirewall"
    ∷ codes "firewall"
    ∷ codes "delete"
    ∷ codes "rule"
    ∷ (codes "name=" ++ name)
    ∷ []

abbrev pub program_clause : Text → Text
program_clause path = codes "program=" ++ path

abbrev pub loopback_clause : Text
loopback_clause = codes "remoteip=127.0.0.1"

module _ (os : Os) where
  unfoldable pub netsh : Command → Action os
  unfolding arguments system32
  netsh c = os.run (system32 os (codes "netsh.exe")) (arguments c)

  unfoldable pub enable_kill_switch : Text → Action os
  enable_kill_switch app_path = and_then os (netsh block_outbound) (
      and_then os
        (if length app_path == 0
          then (λ s. (s, none))
          else netsh (add_rule rule_name (program_clause app_path)))
        (netsh (add_rule rule_name_loopback loopback_clause)))

  unfoldable pub disable_kill_switch : Text → Action os
  disable_kill_switch app_path = and_then os (netsh allow_outbound) (
      and_then os (ignoring os (netsh (delete_rule rule_name)))
        (ignoring os (netsh (delete_rule rule_name_loopback))))
