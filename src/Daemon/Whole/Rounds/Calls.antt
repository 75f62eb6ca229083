-- ===== src/Daemon/Whole/Rounds/Calls.antt =====
-- What the functions of windows_daemon/pipe.go do to the machine, as far as their calls tell.
use fastflow_client.Base.{ℕ, Bool, Option, none, some, inl, inr, Option-cases}
use fastflow_client.Base.Calls.{Result, ok, err}
use fastflow_client.Daemon.Os.{Os}
use fastflow_client.Daemon.Acl.{Disk}
use fastflow_client.Daemon.Process.{Processes}
use fastflow_client.Daemon.Pipe.{
  Pipes, pipe_name, WinError, broken_pipe, not_connected, pipe_connected, other_error,
  create_pipe_instance, created_instance, wait_for_client, connected_peer, named_pipe_client_pid,
  close,
}
use fastflow_client.Daemon.Whole.Rounds.{IsOutside}

module _ (os : Os) (disk : Disk os) (processes : Processes os) (pipes : Pipes os)
    (leaves : os.State → os.State → Type 0) (law : IsOutside os disk processes pipes leaves) where
  created_instance-leaves :
      (m : os.State) (r : os.State × Result ℕ)
      → leaves m r.0
      → leaves m (created_instance os disk pipes r).0
  created_instance-leaves m (t, err e) l = l
  created_instance-leaves m (t, ok h) l = l

  pub create_pipe_instance-leaves :
      (first : Bool) (sa : pipes.Sa) (m : os.State)
      → leaves m (create_pipe_instance os disk pipes first sa m).0
  unfolding create_pipe_instance
  create_pipe_instance-leaves first sa m = elim (Option-cases (disk.utf16 pipe_name)) [
    | inl e ↦ rw (create_pipe_instance, e) (created_instance-leaves m _ (law.create _ _ m))
    | inr (x, e) ↦ rw (create_pipe_instance, e) (law.same m)
  ]

  named_pipe_client_pid-leaves :
      (h : ℕ) (m : os.State) → leaves m (named_pipe_client_pid os disk pipes h m).0
  unfolding named_pipe_client_pid
  named_pipe_client_pid-leaves h m = law.peer h m

  connected_peer-leaves :
      (h : ℕ) (m : os.State) (r : os.State × Option WinError)
      → leaves m r.0
      → leaves m (connected_peer os disk pipes h r).0
  connected_peer-leaves h m (t, none) l =
      law.trans m t (named_pipe_client_pid os disk pipes h t).0 l (named_pipe_client_pid-leaves h t)
  connected_peer-leaves h m (t, some pipe_connected) l =
      law.trans m t (named_pipe_client_pid os disk pipes h t).0 l (named_pipe_client_pid-leaves h t)
  connected_peer-leaves h m (t, some broken_pipe) l = l
  connected_peer-leaves h m (t, some not_connected) l = l
  connected_peer-leaves h m (t, some (other_error e)) l = l

  pub wait_for_client-leaves :
      (h : ℕ) (m : os.State) → leaves m (wait_for_client os disk pipes h m).0
  unfolding wait_for_client
  wait_for_client-leaves h m =
      connected_peer-leaves h m (pipes.connect_named_pipe h m) (law.connect h m)

  pub close-leaves : (h : ℕ) (m : os.State) → leaves m (close os disk pipes h m).0
  unfolding close
  close-leaves h m =
      let f = (pipes.flush h m).0 in
      let d = (pipes.disconnect h f).0 in
      law.trans m f (pipes.close_handle h d).0 (law.flush h m)
        (law.trans f d (pipes.close_handle h d).0 (law.disconnect h f) (law.close h d))
