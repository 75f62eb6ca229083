-- ===== src/Daemon/Pipe.antt =====
-- windows_daemon/pipe.go: the named pipe. What Windows does is the parameter `Pipes`.
pub mod Ends
use Prim.Native.Nat.{bit_or}
use fastflow_client.Base.{
  ℕ, ◌≡◌, ◌≤◌, ◌<◌, Bool, true, false, Option, none, some, List, [], ◌∷◌, ◌++◌, arith, length, ◌==◌,
  if◌then◌else◌,
}
use fastflow_client.Base.Calls.{Result, ok, err}
use fastflow_client.Base.Text.{Text, codes}
use fastflow_client.Daemon.Os.{Os}
use fastflow_client.Daemon.Acl.{Disk}

abbrev pub pipe_name : Text
pipe_name = codes "\\\\.\\pipe\\FastFlowHelper"

abbrev pub pipe_sddl : Text
pipe_sddl = codes "D:P(D;;GA;;;NU)(A;;GA;;;SY)(A;;GA;;;BA)(A;;GRGW;;;IU)"

abbrev pub pipe_access_duplex : ℕ
pipe_access_duplex = 0x00000003

abbrev pub file_flag_first_pipe_instance : ℕ
file_flag_first_pipe_instance = 0x00080000

abbrev pub pipe_reject_remote_clients : ℕ
pipe_reject_remote_clients = 0x00000008

-- `pipeTypeByte | pipeReadmodeByte | pipeWaitMode | pipeRejectRemoteClients`
abbrev pub pipe_mode : ℕ
pipe_mode = bit_or (bit_or (bit_or 0 0) 0) pipe_reject_remote_clients

abbrev pub pipe_unlimited_instances : ℕ
pipe_unlimited_instances = 255

abbrev pub pipe_buf_size : ℕ
pipe_buf_size = 65536

-- The error of a call, as far as `Read` and `waitForClient` tell errors apart.
pub data WinError : Type 0 where
  broken_pipe not_connected pipe_connected : WinError
  other_error : Text → WinError

-- How `Read` can end beside success.
pub data ReadError : Type 0 where
  eof : ReadError
  failed : WinError → ReadError

-- The arguments of `CreateNamedPipe` behind the name.
pub record Instance (Sa : Type 0) : Type 0 where
  pub open_mode : ℕ
  pub mode : ℕ
  pub max_instances : ℕ
  pub out_size : ℕ
  pub in_size : ℕ
  pub timeout : ℕ
  pub security : Sa

pub record Pipes (os : Os) : Type 1 where
  pub Sa : Type 0  -- a security descriptor
  pub descriptor : Text → Result Sa
  pub create_named_pipe : Text → Instance Sa → os.State → os.State × Result ℕ
  pub connect_named_pipe : ℕ → os.State → os.State × Option WinError
  pub client_process_id : ℕ → os.State → os.State × (ℕ × ℕ × Text)  -- result, process, last error
  pub read_file : ℕ → ℕ → os.State → os.State × (List ℕ × Option WinError)
  pub write_file : ℕ → List ℕ → os.State → os.State × (ℕ × Option WinError)
  pub flush : ℕ → os.State → os.State × Option WinError
  pub disconnect : ℕ → os.State → os.State × Option WinError
  pub close_handle : ℕ → os.State → os.State × Option WinError
  pub message : WinError → Text  -- `Error()`

unfoldable pub open_mode : Bool → ℕ
open_mode first =
    if first then bit_or pipe_access_duplex file_flag_first_pipe_instance else pipe_access_duplex

-- What `createPipeInstance` hands to `CreateNamedPipe`.
unfoldable pub pipe_instance : {Sa : Type 0} → Bool → Sa → Instance Sa
unfolding open_mode
pipe_instance first sa = record {
  open_mode = open_mode first;
  mode = pipe_mode;
  max_instances = pipe_unlimited_instances;
  out_size = pipe_buf_size;
  in_size = pipe_buf_size;
  timeout = 0;
  security = sa;
}

module _ (os : Os) (disk : Disk os) (pipes : Pipes os) where
  -- What `ReadFile` has put into the buffer, and the error.
  abbrev pub read_result : List ℕ × Option WinError → List ℕ × Option ReadError
  read_result (bytes, some broken_pipe) = (bytes, some eof)
  read_result (bytes, some not_connected) = (bytes, some eof)
  read_result (bytes, some e) = (bytes, some (failed e))
  read_result ([], none) = ([], some eof)
  read_result (bytes, none) = (bytes, none)

  abbrev read_of : os.State × (List ℕ × Option WinError) → os.State × (List ℕ × Option ReadError)
  read_of (s, r) = (s, read_result r)

  -- `pipeConn.Read` into a buffer of the given length.
  unfoldable pub read : ℕ → ℕ → os.State → os.State × (List ℕ × Option ReadError)
  read h size s = read_of (pipes.read_file h size s)

  unfoldable pub write : ℕ → List ℕ → os.State → os.State × (ℕ × Option WinError)
  write h bytes s = pipes.write_file h bytes s

  unfoldable pub close : ℕ → os.State → os.State × Option WinError
  close h s = pipes.close_handle h (pipes.disconnect h (pipes.flush h s).0).0

  unfoldable pub make_pipe_sa : Result pipes.Sa
  make_pipe_sa = elim (pipes.descriptor pipe_sddl) [
    | err m ↦ err (codes "parse pipe sddl: " ++ m)
    | ok sd ↦ ok sd
  ]

  abbrev pub created_instance : os.State × Result ℕ → os.State × Result ℕ
  created_instance (s, err m) = (s, err (codes "CreateNamedPipe: " ++ m))
  created_instance (s, ok h) = (s, ok h)

  unfoldable pub create_pipe_instance : Bool → pipes.Sa → os.State → os.State × Result ℕ
  unfolding pipe_instance
  create_pipe_instance first sa s = elim (disk.utf16 pipe_name) [
    | some m ↦ (s, err m)
    | none ↦ created_instance (pipes.create_named_pipe pipe_name (pipe_instance first sa) s)
  ]

  abbrev pub peer_of : os.State × (ℕ × ℕ × Text) → os.State × Result ℕ
  peer_of (s, (r, pid, e)) =
      (s, if r == 0 then err (codes "GetNamedPipeClientProcessId: " ++ e) else ok pid)

  unfoldable pub named_pipe_client_pid : ℕ → os.State → os.State × Result ℕ
  named_pipe_client_pid h s = peer_of (pipes.client_process_id h s)

  abbrev pub connected_peer : ℕ → os.State × Option WinError → os.State × Result ℕ
  connected_peer h (s, none) = named_pipe_client_pid h s
  connected_peer h (s, some pipe_connected) = named_pipe_client_pid h s
  connected_peer h (s, some e) = (s, err (codes "ConnectNamedPipe: " ++ pipes.message e))

  unfoldable pub wait_for_client : ℕ → os.State → os.State × Result ℕ
  unfolding named_pipe_client_pid
  wait_for_client h s = connected_peer h (pipes.connect_named_pipe h s)
