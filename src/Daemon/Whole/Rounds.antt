-- ===== src/Daemon/Whole/Rounds.antt =====
-- The rounds of `acceptLoop` of windows_daemon/ipc.go in one thread, over the functions of pipe.go
-- and security.go, while nobody calls `stop`.
pub mod Calls
pub mod Runs
use fastflow_client.Base.{
  ℕ, zero, suc, ◌+◌, ◌<◌, ◌≡◌, refl, Bool, true, false, Option, none, some, List, [], ◌∷◌, arith,
  All, inl, inr, ◌⊎◌, Option-cases, Bool-cases, if◌then◌else◌,
}
use fastflow_client.Base.Calls.{Result, ok, err}
use fastflow_client.Base.Text.{Text}
use fastflow_client.Daemon.Os.{Os}
use fastflow_client.Daemon.Acl.{Disk}
use fastflow_client.Daemon.Process.{Processes}
use fastflow_client.Daemon.Security.{verify_client}
use fastflow_client.Daemon.Pipe.{
  Pipes, pipe_name, WinError, broken_pipe, not_connected, pipe_connected, other_error, make_pipe_sa,
  create_pipe_instance, created_instance, wait_for_client, connected_peer, named_pipe_client_pid,
  close,
}
use fastflow_client.Daemon.Pipe as Pipe
use fastflow_client.Daemon.Accept.{
  modes_of, Server, new_server, prepare, Phase, creating, made, waiting, woken, judging, ended,
  Step, create, register, wake, settle, judge, step, has,
}
use fastflow_client.Daemon.Whole.{
  Whole, Connections, is_ok, go_handle, Move, accepting, outside, Moves, here, next,
}

-- A server in front of `createPipeInstance` that has not been stopped.
abbrev pub listening : Server → Server
listening s = record s { stopped = false; phase = creating }

-- The server behind the creation of a pipe.
abbrev pub with_pipe : Server → Server
with_pipe s = record s {
  cur = none;
  first = false;
  handles = s.handles + 1;
  modes = modes_of s.first ∷ s.modes;
}

abbrev pub dropped : Server → Server
dropped s = record (with_pipe s) { closed = s.handles ∷ s.closed }

module _ (os : Os) (disk : Disk os) (processes : Processes os) (pipes : Pipes os) where
  -- How a round leaves the fields of the server, the connections and the machine, and whether
  -- another one follows.
  pub record Round : Type 0 where
    pub server : Server
    pub connections : Connections
    pub machine : os.State
    pub again : Bool

  -- Behind `verifyClient`.
  abbrev pub judged : Server → Connections → ℕ → ℕ → os.State × Result Text → Round
  judged s cs h pid (m, err e) = record {
    server = dropped s;
    connections = cs;
    machine = (close os disk pipes h m).0;
    again = true;
  }
  judged s cs h pid (m, ok path) = record {
    server = record (with_pipe s) { served = (s.handles, pid) ∷ s.served };
    connections = (s.handles, path, none) ∷ cs;
    machine = m;
    again = true;
  }

  -- Behind `waitForClient`.
  abbrev pub awaited : Server → Connections → ℕ → os.State × Result ℕ → Round
  awaited s cs h (m, err e) = record {
    server = dropped s;
    connections = cs;
    machine = (pipes.close_handle h m).0;
    again = true;
  }
  awaited s cs h (m, ok pid) = judged s cs h pid (verify_client os disk processes pid m)

  -- Behind `createPipeInstance`.
  abbrev pub piped : Server → Connections → os.State × Result ℕ → Round
  piped s cs (m, err e) = record {
    server = record s { first = false };
    connections = cs;
    machine = m;
    again = false;
  }
  piped s cs (m, ok h) = awaited s cs h (wait_for_client os disk pipes h m)

  unfoldable pub round : pipes.Sa → Server → Connections → os.State → Round
  unfolding create_pipe_instance wait_for_client close
  round sa s cs m = piped s cs (create_pipe_instance os disk pipes s.first sa m)

  -- At most so many rounds.
  unfoldable pub rounds : ℕ → pipes.Sa → Round → Round
  rounds zero sa r = r
  rounds (suc n) sa r =
      let later = rounds n sa (round sa r.server r.connections r.machine) in
      if r.again then later else r

  -- The server behind a round: in front of the next one, or behind the loop's `return`.
  abbrev pub whole_of : Round → Whole os
  whole_of r = record {
    server = elim r.again [
      | true ↦ listening r.server
      | false ↦ record r.server { stopped = false; phase = ended }
    ];
    connections = r.connections;
    machine = r.machine;
  }

  -- `acceptLoop`, from the start, for at most so many rounds.
  unfoldable pub accept_loop : ℕ → os.State → Whole os
  unfolding new_server make_pipe_sa rounds
  accept_loop n m = elim (make_pipe_sa os disk pipes) [
    | err e ↦ record { server = record new_server { phase = ended }; connections = []; machine = m }
    | ok sa ↦
        whole_of (
          rounds n sa (record { server = new_server; connections = []; machine = m; again = true }))
  ]

  -- What Windows does to the machine in a call on a pipe.
  pub record IsOutside (leaves : os.State → os.State → Type 0) : Type 0 where
    pub same : (s : os.State) → leaves s s
    pub trans : (s t u : os.State) → leaves s t → leaves t u → leaves s u
    pub create :
        (name : Text) (i : Pipe.Instance pipes.Sa) (s : os.State)
        → leaves s (pipes.create_named_pipe name i s).0
    pub connect : (h : ℕ) (s : os.State) → leaves s (pipes.connect_named_pipe h s).0
    pub peer : (h : ℕ) (s : os.State) → leaves s (pipes.client_process_id h s).0
    pub flush : (h : ℕ) (s : os.State) → leaves s (pipes.flush h s).0
    pub disconnect : (h : ℕ) (s : os.State) → leaves s (pipes.disconnect h s).0
    pub close : (h : ℕ) (s : os.State) → leaves s (pipes.close_handle h s).0
