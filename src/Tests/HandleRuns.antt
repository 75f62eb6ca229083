-- ===== src/Tests/HandleRuns.antt =====
-- Windows as a counter of handles: the checks of a program's signature, the pipe, and processes.
use fastflow_client.Base.{
  ℕ, ◌+◌, ◌-◌, ◌≡◌, ◌≤◌, refl, sym, ap, ◌∙◌, inl, inr, ◌&&◌, Bool-cases, true, false, none, some,
  [], arith, ◌==◌, if◌then◌else◌,
}
use fastflow_client.Base.Calls.{ok, err}
use fastflow_client.Base.Text.{Text, codes, trim_space}
use fastflow_client.Daemon.Os.{Os}
use fastflow_client.Daemon.Acl.{Disk, created}
use fastflow_client.Daemon.Security.{equal_fold, hex_encode}
use fastflow_client.Daemon.Handles.{
  Kind, tag, Resource, trust, message, store, certificate, process, manager, service, one, count,
  Keeps, Gives,
}
use fastflow_client.Daemon.Authenticode.{
  wtd_state_action_close, Crypto, hex_word, verify_authenticode, verify_signer_cn,
}
use fastflow_client.Daemon.Authenticode.Release as Authenticode
use fastflow_client.Daemon.Install.{Manager, install_service, uninstall_service}
use fastflow_client.Daemon.Install.Release as Install
use fastflow_client.Daemon.Balance.{functions-Keeps}
use fastflow_client.Daemon.Security.{verify_client}
use fastflow_client.Daemon.Process.{Processes, process_image_path}
use fastflow_client.Daemon.Process as Process
use fastflow_client.Daemon.Pipe.{
  Pipes, broken_pipe, pipe_connected, open_mode, pipe_mode, read, eof, wait_for_client,
  named_pipe_client_pid,
}

-- The state says how often each resource is held.
abbrev Table : Type 0
Table = Resource → ℕ

abbrev held : Table → Resource → ℕ
held t k = t k

abbrev take : Resource → Table → Table
take r t k = t k + one k r

abbrev give : Resource → Table → Table
give r t k = t k - one k r

abbrev counter : Os
counter = record {
  State = Table;
  getenv = λ name. [];
  join = λ parts. [];
  quote = λ s. s;
  fold = λ c. if c == b'F' then b'f' else c;
  run = λ tool args s. (s, none);
}

abbrev nowhere : Disk counter
nowhere = record {
  parse_sddl = λ t. none;
  sddl_owner = λ t. none;
  sddl_dacl = λ t. none;
  utf16 = λ t. none;
  create_directory = λ dir s. (s, created);
  owner_of = λ dir s. ok (codes "SYSTEM");
  system_sid = ok (codes "SYSTEM");
  administrators_sid = ok (codes "Administrators");
  set_security = λ dir s. (s, none);
  remove_file = λ p s. s;
  read_file = λ p s. err (codes "not found");
  write_file = λ p t s. (s, none);
  random = λ n s. (s, ok []);
}

-- Every program is signed by the one publisher.
abbrev signed : Crypto counter
signed = record {
  win_verify_trust = λ id wd s.
      if wd.state_action == wtd_state_action_close
      then (give (trust, wd.state_data) s, (0, 0))
      else (take (trust, 1) s, (0, 1));
  query_object = λ kind path content format s. (take (store, 2) (take (message, 3) s), ok (2, 3));
  message_size = λ m p s. (s, record { result = 1; value = 40; last_error = [] });
  message_data = λ m p n s. (s, record { result = 1; value = []; last_error = [] });
  find_certificate = λ st encoding search info s. (take (certificate, 4) s, 4);
  name_size = λ c kind s. (s, 12);
  name = λ c kind n s. (s, codes " FastFlow ");
  close_message = λ h s. give (message, h) s;
  close_store = λ h s. give (store, h) s;
  free_certificate = λ h s. give (certificate, h) s;
}

start : Table
start k = 0

abbrev untag : ℕ → Kind
untag n =
    if n == 0
    then trust
    else if n == 1
    then message
    else if n == 2
    then store
    else if n == 3
    then certificate
    else if n == 4
    then process
    else if n == 5
    then manager
    else service

untag-tag : (a : Kind) → untag (tag a) ≡ a
untag-tag trust = refl
untag-tag message = refl
untag-tag store = refl
untag-tag certificate = refl
untag-tag process = refl
untag-tag manager = refl
untag-tag service = refl

one-held : (k r : Resource) (t : Table) → 1 ≤ t r → one k r ≤ t k
unfolding one
one-held (a, m) (b, n) t h = elim (Bool-cases (tag a == tag b && m == n)) [
  | inl e ↦
      let same : a ≡ b =
        sym (untag-tag a) ∙ ap untag {x = tag a} {y = tag b} (ground arith) ∙ untag-tag b in
      let equal : m ≡ n = ground arith in rw (e, same, equal) h
  | inr e ↦ rw e (omega arith)
]

give-Gives : (r : Resource) (t : Table) → Gives held r t (give r t)
give-Gives r t h k = ground (arith, one-held k r t h)

signed-IsCounted : Authenticode.IsCounted counter signed held
signed-IsCounted = record {
  verify_trust = λ id wd s e. rw e (λ k. refl);
  query_object = λ kind path content format s k. unfold count in omega arith;
  message_size = λ m p s k. refl;
  message_data = λ m p n s k. refl;
  find_certificate = λ st encoding search info s k. refl;
  name_size = λ c kind s k. refl;
  name = λ c kind n s k. refl;
  close_trust = λ id wd s e. rw e (give-Gives (trust, wd.state_data) s);
  close_message = λ h s. give-Gives (message, h) s;
  close_store = λ h s. give-Gives (store, h) s;
  free_certificate = λ h s. give-Gives (certificate, h) s;
}

abbrev gui : Text
gui = codes "fastflow_vpn.exe"

is_signed : (verify_signer_cn counter nowhere signed gui (codes "FastFlow") start).1 ≡ none
unfolding verify_signer_cn codes trim_space equal_fold
is_signed = refl

failed_trust :
    verify_authenticode counter nowhere
      (record signed {
        win_verify_trust = λ id wd s.
            if wd.state_action == wtd_state_action_close
            then (give (trust, wd.state_data) s, (0, 0))
            else (s, (0x800b0100, 0));
      })
      gui
      start
    ≡ (
      give (trust, 0) start,
      some (codes "WinVerifyTrust failed (0x800b0100) for fastflow_vpn.exe"),
    )
unfolding verify_authenticode hex_word hex_encode codes
failed_trust = refl

abbrev tasks : Processes counter
tasks = record {
  open_process = λ pid s. (take (process, pid) s, ok pid);
  image_name = λ h s. (s, ok gui);
  close_handle = λ h s. give (process, h) s;
}

tasks-IsCounted : Process.IsCounted counter tasks held
tasks-IsCounted = record {
  open_process = λ pid s k. refl;
  image_name = λ h s k. refl;
  close_handle = λ h s. give-Gives (process, h) s;
}

-- The service is not there, and can be created.
abbrev scm : Manager counter
scm = record {
  executable = λ s. (s, ok (codes "daemon.exe"));
  connect = λ s. (take (manager, 5) s, ok 5);
  disconnect = λ m s. give (manager, m) s;
  open_service = λ m name s. (s, err (codes "does not exist"));
  create_service = λ m name exe config s. (take (service, 6) s, ok 6);
  delete_service = λ h s. (s, none);
  close_service = λ h s. give (service, h) s;
  open_log = λ path s. (s, none);
  is_windows_service = ok false;
}

scm-IsCounted : Install.IsCounted counter nowhere scm held
scm-IsCounted = record {
  executable = λ s k. refl;
  directory = λ k. record {
    create_directory = λ dir s. refl;
    set_security = λ dir s. refl;
    remove_file = λ p s. refl;
  };
  connect = λ s k. refl;
  open_service = λ m s k. refl;
  create_service = λ m exe s k. refl;
  delete_service = λ h s k. refl;
  disconnect = λ m s. give-Gives (manager, m) s;
  close_service = λ h s. give-Gives (service, h) s;
}

functions-Keeps_example :
    Keeps held start (verify_client counter nowhere tasks 12 start).0
    × Keeps held start (verify_authenticode counter nowhere signed gui start).0
    × Keeps held start (verify_signer_cn counter nowhere signed gui (codes "FastFlow") start).0
    × Keeps held start (install_service counter nowhere scm start).0
    × Keeps held start (uninstall_service counter nowhere scm start).0
functions-Keeps_example =
    functions-Keeps counter nowhere held tasks signed scm
      (record {
        of_processes = tasks-IsCounted;
        of_crypto = signed-IsCounted;
        of_manager = scm-IsCounted;
      })
      12 gui (codes "FastFlow") start

-- A pipe whose client has connected before, and then leaves.
abbrev pipes : Pipes counter
pipes = record {
  Sa = Unit;
  descriptor = λ t. ok tt;
  create_named_pipe = λ name i s. (s, ok 5);
  connect_named_pipe = λ h s. (s, some pipe_connected);
  client_process_id = λ h s. (s, (1, 12, []));
  read_file = λ h size s. (s, ([], some broken_pipe));
  write_file = λ h bytes s. (s, (0, none));
  flush = λ h s. (s, none);
  disconnect = λ h s. (s, none);
  close_handle = λ h s. (s, none);
  message = λ e. [];
}

modes : (open_mode true ≡ 0x80003) × (open_mode false ≡ 3) × (pipe_mode ≡ 8)
unfolding open_mode
modes = (refl, refl, refl)

ends : (read counter nowhere pipes 5 4096 start).1 ≡ ([], some eof)
unfolding read
ends = refl

finds_peer : (wait_for_client counter nowhere pipes 5 start).1 ≡ ok 12
unfolding wait_for_client named_pipe_client_pid
finds_peer = refl
