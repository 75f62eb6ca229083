-- ===== src/Tests/WholeRuns.antt =====
-- The daemon as a whole: the installed client connects and switches the kill switch on.
use fastflow_client.Base.{
  ◌≡◌, refl, arith, ◌∙◌, true, false, none, some, [], ◌∷◌, ◌==◌, if◌then◌else◌,
}
use fastflow_client.Base.Int.{pos}
use fastflow_client.Base.Calls.{ok, err}
use fastflow_client.Base.Text.{Text, codes, text_eq}
use fastflow_client.Daemon.Os.{system32}
use fastflow_client.Daemon.Acl.{Disk, already_exists}
use fastflow_client.Daemon.Process.{Processes, process_image_path}
use fastflow_client.Daemon.Security.{equal_fold, expected_client_path, verify_client}
use fastflow_client.Daemon.Firewall.{
  Command, block_outbound, allow_outbound, add_rule, delete_rule, rule_name, rule_name_loopback,
  program_clause, netsh, enable_kill_switch,
}
use fastflow_client.Daemon.Accept.{Server, creating, judging, judge, step, new_server}
use fastflow_client.Daemon.Ipc.{Request, method_of, result, bool_param, handle_line}
use fastflow_client.Daemon.Work.{Work, answers, runs, enable_work, line_work, EndsWithin}
use fastflow_client.Daemon.Work.Bounds.{line_work-EndsWithin}
use fastflow_client.Daemon.Whole.{
  Whole, connection, set_work, accepting, reading, running, writing, Moves, here, next,
}
use fastflow_client.Daemon.Whole.Requests.{Moves-Moves, handle_line-Moves}
use fastflow_client.Daemon.Whole.Races.{requests_race}
use fastflow_client.Daemon.Whole.Rules.{Spares}
use fastflow_client.Daemon.Whole.Apart.{IsApart}
use fastflow_client.Daemon.Whole.Shut.{SamePolicy, IsShut, Moves-IsShut}
use fastflow_client.Daemon.Pipe.{
  Pipes, create_pipe_instance, wait_for_client, named_pipe_client_pid,
}
use fastflow_client.Daemon.Whole.Rounds.{IsOutside, round, accept_loop}
use fastflow_client.Daemon.Whole.Rounds.Runs.{accept_loop-Moves}
use fastflow_client.Daemon.Whole.Trust.{IsTrusted, Moves-IsTrusted}
use fastflow_client.Tests.DaemonRuns.{
  Machine, machine, start, is_blocked, allows, machine-IsFirewall, on,
}

abbrev client : Text
client = codes "fastflow_vpn.exe"

abbrev disk : Disk machine
disk = record {
  parse_sddl = λ t. none;
  sddl_owner = λ t. none;
  sddl_dacl = λ t. none;
  utf16 = λ t. none;
  create_directory = λ dir s. (s, already_exists);
  owner_of = λ dir s. ok (codes "SYSTEM");
  system_sid = ok (codes "SYSTEM");
  administrators_sid = ok (codes "Administrators");
  set_security = λ dir s. (s, none);
  remove_file = λ p s. s;
  read_file = λ p s. err (codes "not found");
  write_file = λ p t s. (s, none);
  random = λ n s. (s, ok []);
}

-- Process 12 runs the client, and every other one something else.
abbrev tasks : Processes machine
tasks = record {
  open_process = λ pid s. (s, ok pid);
  image_name = λ h s. (s, ok (if h == 12 then client else codes "evil.exe"));
  close_handle = λ h s. s;
}

tasks-IsApart : IsApart machine tasks (Spares Machine allows)
unfolding codes text_eq system32
tasks-IsApart = record {
  route = λ args s clause. refl;
  open_process = λ pid s clause. refl;
  image_name = λ h s clause. refl;
  close_handle = λ h s clause. refl;
}

abbrev listening : Server
listening = record new_server { phase = judging 0 12; handles = 1; modes = (0x80003, 8) ∷ [] }

abbrev accepted : Server
accepted = record listening { phase = creating; served = (0, 12) ∷ [] }

abbrev before : Whole machine
before = record { server = listening; connections = []; machine = start }

abbrev arrived : Whole machine
arrived = record { server = accepted; connections = (0, client, none) ∷ []; machine = start }

abbrev after : Whole machine
after = record {
  server = accepted;
  connections =
      set_work 0 (some (answers (handle_line machine (codes "s3cret") client (some on) start).1))
        ((0, client, none) ∷ []);
  machine = (handle_line machine (codes "s3cret") client (some on) start).0;
}

before-IsTrusted : IsTrusted machine disk allows before
before-IsTrusted = record { peers = tt; rules = λ clause e. cc }

is_client : (verify_client machine disk tasks 12 start).1 ≡ ok client
unfolding verify_client process_image_path codes equal_fold expected_client_path
is_client = refl

connects : Moves machine disk tasks (codes "s3cret") (Spares Machine allows) before arrived
unfolding verify_client process_image_path codes equal_fold expected_client_path step new_server
connects = next here (accepting before judge refl)

handle_line-Moves_example :
    Moves machine disk tasks (codes "s3cret") (Spares Machine allows) arrived after
unfolding connection
handle_line-Moves_example =
    handle_line-Moves machine disk tasks (codes "s3cret") (Spares Machine allows) arrived 0 client
      (some on) refl

-- Its rule is there afterwards, and one for another program is not.
rule_is_there :
    (allows rule_name (program_clause client) after.machine ≡ true)
    × (allows rule_name (program_clause (codes "evil.exe")) after.machine ≡ false)
unfolding handle_line codes text_eq bool_param enable_kill_switch netsh
rule_is_there = (refl, refl)

asks : Moves machine disk tasks (codes "s3cret") (Spares Machine allows) before after
unfolding connection
asks = Moves-Moves machine disk tasks (codes "s3cret") (Spares Machine allows) connects (
    handle_line-Moves machine disk tasks (codes "s3cret") (Spares Machine allows) arrived 0 client
      (some on) refl)

Moves-IsTrusted_example : IsTrusted machine disk allows after
Moves-IsTrusted_example =
    Moves-IsTrusted machine disk is_blocked allows machine-IsFirewall tasks tasks-IsApart
      (codes "s3cret") before-IsTrusted asks

-- Each pipe has its number, and process 12 connects to it.
abbrev sockets : Pipes machine
sockets = record {
  Sa = Unit;
  descriptor = λ t. ok tt;
  create_named_pipe = λ name i s. (s, ok 5);
  connect_named_pipe = λ h s. (s, none);
  client_process_id = λ h s. (s, (1, 12, []));
  read_file = λ h size s. (s, ([], none));
  write_file = λ h bytes s. (s, (0, none));
  flush = λ h s. (s, none);
  disconnect = λ h s. (s, none);
  close_handle = λ h s. (s, none);
  message = λ e. [];
}

sockets-IsOutside : IsOutside machine disk tasks sockets (Spares Machine allows)
sockets-IsOutside = record {
  same = λ s clause. refl;
  trans = λ s t u f g clause. g clause ∙ f clause;
  create = λ name i s clause. refl;
  connect = λ h s clause. refl;
  peer = λ h s clause. refl;
  flush = λ h s clause. refl;
  disconnect = λ h s clause. refl;
  close = λ h s clause. refl;
}

serves_twice :
    (accept_loop machine disk tasks sockets 2 start).connections
    ≡ (1, client, none) ∷ (0, client, none) ∷ []
unfolding accept_loop create_pipe_instance wait_for_client named_pipe_client_pid verify_client
    process_image_path codes equal_fold expected_client_path new_server round
serves_twice = refl

accept_loop-Moves_example :
    Moves machine disk tasks
      (codes "s3cret")
      (Spares Machine allows)
      (record { server = new_server; connections = []; machine = start })
      (accept_loop machine disk tasks sockets 2 start)
accept_loop-Moves_example =
    accept_loop-Moves machine disk tasks sockets (codes "s3cret") (Spares Machine allows)
      sockets-IsOutside 2 start

line_work-EndsWithin_example : EndsWithin 3 (line_work machine (codes "s3cret") client (some on))
line_work-EndsWithin_example = line_work-EndsWithin machine (codes "s3cret") client (some on)

-- The client has two connections.
abbrev twice : Whole machine
twice = record arrived { connections = (1, client, none) ∷ (0, client, none) ∷ [] }

abbrev off : Request
off = record on { id = pos 4; params = [] }

never_fails : (c : Command) (s : Machine) → (netsh machine c s).1 ≡ none
unfolding netsh codes text_eq
never_fails block_outbound s = refl
never_fails allow_outbound s = refl
never_fails (add_rule n d) s = refl
never_fails (delete_rule n) s = refl

requests_race_example :
    (v : Whole machine) × Moves machine disk tasks (codes "s3cret") (Spares Machine allows) twice v
    × (connection 0 v.connections ≡ some (client, some (answers (result (pos 3) none))))
    × (connection 1 v.connections ≡ some (client, some (answers (result (pos 4) none))))
    × (is_blocked v.machine ≡ true)
    × ((clause : Text)
        → (allows rule_name clause v.machine ≡ false)
          × (allows rule_name_loopback clause v.machine ≡ false))
unfolding connection codes text_eq method_of bool_param
requests_race_example =
    requests_race machine disk tasks (codes "s3cret") (Spares Machine allows) twice 0 1
      (λ e. omega (arith, e)) client client refl refl never_fails is_blocked allows
      machine-IsFirewall on off (λ e. cc) (refl, refl, refl) (refl, refl, refl)

-- The same request without the secret, while traffic is blocked, and then one to switch it on.
abbrev forged : Request
forged = record off { token = codes "guess" }

abbrev shut : Whole machine
shut = record arrived { machine = record start { blocked = true } }

abbrev asked : Whole machine
asked = record shut {
  connections =
      set_work 0 (some (line_work machine (codes "s3cret") client (some forged))) shut.connections;
}

abbrev told : Whole machine
told = record asked { connections = set_work 0 none asked.connections }

abbrev pressed : Whole machine
pressed = record told {
  connections =
      set_work 0 (some (line_work machine (codes "s3cret") client (some on))) told.connections;
}

abbrev after_command : Work → Work
after_command (answers r) = answers r
after_command (runs tool args k) = k none

abbrev half_way : Whole machine
half_way = record {
  server = accepted;
  connections =
      set_work 0 (some (after_command (line_work machine (codes "s3cret") client (some on))))
        pressed.connections;
  machine = (netsh machine block_outbound shut.machine).0;
}

policy-IsApart : IsApart machine tasks (SamePolicy machine is_blocked)
unfolding codes text_eq system32
policy-IsApart = record {
  route = λ args s. refl;
  open_process = λ pid s. refl;
  image_name = λ h s. refl;
  close_handle = λ h s. refl;
}

Moves-IsShut_example : IsShut machine is_blocked half_way
unfolding connection codes text_eq method_of bool_param netsh line_work set_work enable_work
Moves-IsShut_example =
    Moves-IsShut machine disk tasks (codes "s3cret") is_blocked allows machine-IsFirewall
      policy-IsApart (record { works = (tt, tt); shut = refl })
      (next
        (next
          (next (next here (reading shut 0 client (some forged) refl))
            (writing asked 0 client _ refl))
          (reading told 0 client (some on) refl))
        (running pressed 0 client _ _ _ refl))
      ((((tt, λ d. cc), tt), λ d. cc), tt)
