-- ===== src/Daemon/Pipe/Ends.antt =====
-- When the connections of windows_daemon/pipe.go end, and whom they are with.
use fastflow_client.Base.{
  ℕ, ◌≡◌, ◌≢◌, ◌≤◌, ◌⊎◌, ◌↔◌, Option, none, some, List, [], ◌∷◌, arith, length,
}
use fastflow_client.Base.Calls.{ok}
use fastflow_client.Base.Text.{Text}
use fastflow_client.Daemon.Os.{Os}
use fastflow_client.Daemon.Acl.{Disk}
use fastflow_client.Daemon.Pipe.{
  Pipes, WinError, broken_pipe, not_connected, pipe_connected, other_error, ReadError, eof,
  read_result, read, connected_peer, named_pipe_client_pid, wait_for_client,
}

module _ (os : Os) (disk : Disk os) (pipes : Pipes os) where
  abbrev pub IsGone : Option WinError → Type 0
  IsGone e = (e ≡ some broken_pipe) ⊎ (e ≡ some not_connected)

  -- What `io.Reader` asks of one result, of what `ReadFile` has given.
  abbrev pub IsRead : List ℕ × Option WinError → List ℕ × Option ReadError → Type 0
  IsRead (bytes, e) (bytes', e') =
      (bytes' ≡ bytes)
      × ((e' ≡ some eof) ↔ (IsGone e ⊎ ((e ≡ none) × (bytes ≡ []))))
      × ((e' ≡ none) ↔ ((e ≡ none) × (1 ≤ length bytes)))

  read_result-IsRead : (r : List ℕ × Option WinError) → IsRead r (read_result os disk pipes r)
  read_result-IsRead (bytes, some broken_pipe) = ground arith
  read_result-IsRead (bytes, some not_connected) = ground arith
  read_result-IsRead (bytes, some pipe_connected) = ground arith
  read_result-IsRead (bytes, some (other_error m)) = ground arith
  read_result-IsRead ([], none) = ground arith
  read_result-IsRead (b ∷ bytes, none) = ground arith

  -- `Read` returns the bytes that `ReadFile` has stored. It reports the end of the file exactly if
  -- the pipe is broken or not connected, or if there is neither an error nor a byte, and it returns
  -- without an error exactly if `ReadFile` does and there is a byte.
  pub read-IsRead :
      (h size : ℕ) (s : os.State)
      → IsRead (pipes.read_file h size s).1 (read os disk pipes h size s).1
  unfolding read
  read-IsRead h size s = read_result-IsRead (pipes.read_file h size s).1

  abbrev pub IsPeer : ℕ → ℕ × ℕ × Text → Type 0
  IsPeer pid (r, p, e) = (r ≢ 0) × (p ≡ pid)

  abbrev pub IsAwaited : Option WinError → Type 0
  IsAwaited e = (e ≡ none) ⊎ (e ≡ some pipe_connected)

  named_pipe_client_pid_ok :
      (h pid : ℕ) (s : os.State)
      → ((named_pipe_client_pid os disk pipes h s).1 ≡ ok pid)
        ↔ IsPeer pid (pipes.client_process_id h s).1
  unfolding named_pipe_client_pid
  named_pipe_client_pid_ok h pid s = ground arith

  connected_peer_ok :
      (h pid : ℕ) (r : os.State × Option WinError)
      → ((connected_peer os disk pipes h r).1 ≡ ok pid)
        ↔ (IsAwaited r.1 × IsPeer pid (pipes.client_process_id h r.0).1)
  connected_peer_ok h pid (s, none) = ground (arith, named_pipe_client_pid_ok h pid s)
  connected_peer_ok h pid (s, some pipe_connected) =
      ground (arith, named_pipe_client_pid_ok h pid s)
  connected_peer_ok h pid (s, some broken_pipe) = ground arith
  connected_peer_ok h pid (s, some not_connected) = ground arith
  connected_peer_ok h pid (s, some (other_error m)) = ground arith

  -- `waitForClient` gives a process exactly if a client connects, or has connected before, and
  -- Windows then names that process as the client of the pipe.
  pub wait_for_client_ok :
      (h pid : ℕ) (s : os.State)
      → ((wait_for_client os disk pipes h s).1 ≡ ok pid) ↔ (
          IsAwaited (pipes.connect_named_pipe h s).1
          × IsPeer pid (pipes.client_process_id h (pipes.connect_named_pipe h s).0).1)
  unfolding wait_for_client
  wait_for_client_ok h pid s = connected_peer_ok h pid (pipes.connect_named_pipe h s)
