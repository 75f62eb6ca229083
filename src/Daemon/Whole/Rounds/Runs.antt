-- ===== src/Daemon/Whole/Rounds/Runs.antt =====
-- The rounds of `acceptLoop` of windows_daemon/ipc.go are moves of the daemon.
use fastflow_client.Base.{
  ℕ, zero, suc, ◌+◌, ◌<◌, ◌≡◌, refl, Bool, true, false, Option, none, some, List, [], ◌∷◌, arith,
  All, if◌then◌else◌,
}
use fastflow_client.Base.Calls.{Result, ok, err}
use fastflow_client.Base.Text.{Text}
use fastflow_client.Daemon.Os.{Os}
use fastflow_client.Daemon.Acl.{Disk}
use fastflow_client.Daemon.Process.{Processes}
use fastflow_client.Daemon.Security.{verify_client}
use fastflow_client.Daemon.Pipe.{Pipes, make_pipe_sa, create_pipe_instance, wait_for_client, close}
use fastflow_client.Daemon.Accept.{
  Server, new_server, prepare, made, waiting, woken, judging, create, register, wake, settle, judge,
  step, has,
}
use fastflow_client.Daemon.Whole.{
  Whole, Connections, is_ok, go_handle, accepting, outside, Moves, here, next,
}
use fastflow_client.Daemon.Whole.Rounds.{
  listening, with_pipe, dropped, Round, judged, awaited, piped, round, whole_of, rounds,
  accept_loop, IsOutside,
}
use fastflow_client.Daemon.Whole.Rounds.Calls.{
  create_pipe_instance-leaves, wait_for_client-leaves, close-leaves,
}

module _ (os : Os) (disk : Disk os) (processes : Processes os) (pipes : Pipes os) (token : Text)
    (leaves : os.State → os.State → Type 0) (law : IsOutside os disk processes pipes leaves) where
  abbrev Reaches : Whole os → Whole os → Type 0
  Reaches = Moves os disk processes token leaves

  abbrev at : Server → Connections → os.State → Whole os
  at s cs m = record { server = s; connections = cs; machine = m }

  -- The server at each place of a round.
  abbrev waiting_at : Server → Server
  waiting_at s = record (with_pipe s) {
    stopped = false;
    phase = waiting s.handles;
    cur = some s.handles;
  }

  abbrev woken_at : Option ℕ → Server → Server
  woken_at peer s = record (waiting_at s) { phase = woken s.handles peer }

  abbrev judging_at : ℕ → Server → Server
  judging_at pid s = record (with_pipe s) { stopped = false; phase = judging s.handles pid }

  judged-Moves :
      (w : Whole os) (s : Server) (cs : Connections) (h pid : ℕ) (r : os.State × Result Text)
      → Reaches w (
          at
            (if is_ok r.1
              then listening (record (with_pipe s) { served = (s.handles, pid) ∷ s.served })
              else listening (dropped s))
            (go_handle s.handles r.1 cs)
            r.0)
      → Reaches w (whole_of os disk processes pipes (judged os disk processes pipes s cs h pid r))
  judged-Moves w s cs h pid (m, ok path) ms = ms
  judged-Moves w s cs h pid (m, err e) ms = next ms (
      outside (at (listening (dropped s)) cs m) (close os disk pipes h m).0
        (close-leaves os disk processes pipes leaves law h m))

  abbrev Older : Server → Type 0
  Older s = All (λ k. k < s.handles) s.closed

  has-older : (n : ℕ) (l : List ℕ) → All (λ k. k < n) l → has n l ≡ false
  has-older n [] a = refl
  has-older n (k ∷ l) a = ground (arith, a.0, has-older n l a.1)

  awaited-Moves :
      (w : Whole os) (s : Server) (cs : Connections) (h : ℕ) (r : os.State × Result ℕ)
      → Older s
      → Reaches w (at (waiting_at s) cs r.0)
      → Reaches w (whole_of os disk processes pipes (awaited os disk processes pipes s cs h r))
  unfolding step
  awaited-Moves w s cs h (m, err e) o ms =
      let woke = next ms (accepting (at (waiting_at s) cs m) (wake none) refl) in
      let settled = next woke (accepting (at (woken_at none s) cs m) settle refl) in
      next settled
        (outside (at (listening (dropped s)) cs m) (pipes.close_handle h m).0 (law.close h m))
  awaited-Moves w s cs h (m, ok pid) o ms =
      let woke = next ms (
        accepting (at (waiting_at s) cs m) (wake (some pid)) {t = woken_at (some pid) s}
          (rw (step, has-older s.handles s.closed o) refl)) in
      let settled = next woke (accepting (at (woken_at (some pid) s) cs m) settle refl) in
      judged-Moves w s cs h pid (verify_client os disk processes pid m)
        (next settled (accepting (at (judging_at pid s) cs m) judge refl))

  piped-Moves :
      (w : Whole os) (s : Server) (cs : Connections) (r : os.State × Result ℕ)
      → Older s
      → Reaches w (at (listening s) cs r.0)
      → Reaches w (whole_of os disk processes pipes (piped os disk processes pipes s cs r))
  unfolding step
  piped-Moves w s cs (m, err e) o ms =
      next ms (accepting (at (listening s) cs m) (create false) refl)
  piped-Moves w s cs (m, ok h) o ms =
      let made_at = record (with_pipe s) { stopped = false; phase = made s.handles; cur = s.cur } in
      let created = next ms (accepting (at (listening s) cs m) (create true) {t = made_at} refl) in
      let registered =
        next created (accepting (at made_at cs m) register {t = waiting_at s} refl) in
      let peer = wait_for_client os disk pipes h m in
      awaited-Moves w s cs h peer o (
        next registered (
          outside (at (waiting_at s) cs m) peer.0
            (wait_for_client-leaves os disk processes pipes leaves law h m)))

  round-Moves :
      (w : Whole os) (sa : pipes.Sa) (s : Server) (cs : Connections) (m : os.State)
      → Older s
      → Reaches w (at (listening s) cs m)
      → Reaches w (whole_of os disk processes pipes (round os disk processes pipes sa s cs m))
  unfolding round
  round-Moves w sa s cs m o ms =
      let pipe = create_pipe_instance os disk pipes s.first sa m in
      piped-Moves w s cs pipe o (
        next ms (
          outside (at (listening s) cs m) pipe.0
            (create_pipe_instance-leaves os disk processes pipes leaves law s.first sa m)))

  one_more : (n : ℕ) (l : List ℕ) → All (λ k. k < n) l → All (λ k. k < n + 1) l
  one_more n [] a = a
  one_more n (k ∷ l) a = (omega (arith, a.0), one_more n l a.1)

  dropped-Older : (s : Server) → Older s → Older (dropped s)
  dropped-Older s o = (omega arith, one_more s.handles s.closed o)

  judged-Older :
      (s : Server) (cs : Connections) (h pid : ℕ) (r : os.State × Result Text)
      → Older s
      → Older (judged os disk processes pipes s cs h pid r).server
  judged-Older s cs h pid (m, err e) o = dropped-Older s o
  judged-Older s cs h pid (m, ok path) o = one_more s.handles s.closed o

  awaited-Older :
      (s : Server) (cs : Connections) (h : ℕ) (r : os.State × Result ℕ)
      → Older s
      → Older (awaited os disk processes pipes s cs h r).server
  awaited-Older s cs h (m, err e) o = dropped-Older s o
  awaited-Older s cs h (m, ok pid) o =
      judged-Older s cs h pid (verify_client os disk processes pid m) o

  piped-Older :
      (s : Server) (cs : Connections) (r : os.State × Result ℕ)
      → Older s
      → Older (piped os disk processes pipes s cs r).server
  piped-Older s cs (m, err e) o = o
  piped-Older s cs (m, ok h) o = awaited-Older s cs h (wait_for_client os disk pipes h m) o

  either :
      (w : Whole os) (b : Bool) (p q : Round os disk processes pipes)
      → (b ≡ true → Reaches w (whole_of os disk processes pipes p))
      → Reaches w (whole_of os disk processes pipes q)
      → Reaches w (whole_of os disk processes pipes (if b then p else q))
  either w true p q follow stop = follow refl
  either w false p q follow stop = stop

  rounds-Moves :
      (w : Whole os) (n : ℕ) (sa : pipes.Sa) (r : Round os disk processes pipes)
      → Older r.server
      → Reaches w (whole_of os disk processes pipes r)
      → Reaches w (whole_of os disk processes pipes (rounds os disk processes pipes n sa r))
  unfolding rounds
  rounds-Moves w zero sa r o ms = ms
  rounds-Moves w (suc n) sa r o ms =
      let following = round os disk processes pipes sa r.server r.connections r.machine in
      either w r.again (rounds os disk processes pipes n sa following) r
        (λ e.
          rounds-Moves w n sa following
            (unfold round in
              piped-Older r.server r.connections
                (create_pipe_instance os disk pipes r.server.first sa r.machine) o)
            (round-Moves w sa r.server r.connections r.machine o (rw e at ms)))
        ms

  -- Where `leaves` holds across the calls on pipes, and is reflexive and transitive: the accept
  -- loop, run by itself over the functions of pipe.go and security.go for any number of rounds,
  -- makes moves of the whole daemon.
  pub accept_loop-Moves :
      (n : ℕ) (m : os.State)
      → Moves os disk processes token leaves
          (record { server = new_server; connections = []; machine = m })
          (accept_loop os disk processes pipes n m)
  unfolding accept_loop new_server step
  accept_loop-Moves n m = go (make_pipe_sa os disk pipes) refl
    where
      go :
          (sa : Result pipes.Sa)
          → make_pipe_sa os disk pipes ≡ sa
          → Reaches (at new_server [] m) (accept_loop os disk processes pipes n m)
      go (err e) q =
          rw (accept_loop, q) (next here (accepting (at new_server [] m) (prepare false) refl))
      go (ok sa) q =
          rw (accept_loop, q)
            (rounds-Moves (at new_server [] m) n sa
              (record { server = new_server; connections = []; machine = m; again = true }) tt
              (next here (accepting (at new_server [] m) (prepare true) refl)))
