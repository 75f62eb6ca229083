-- ===== src/Tests/AcceptRuns.antt =====
-- Schedules of the accept loop and of `stop`.
use fastflow_client.Base.{
  ℕ, ◌≡◌, refl, ◌+◌, ◌≤◌, inl, Bool, true, false, none, some, List, [], ◌∷◌, ◌++◌, ◌⊎◌, arith, ◌==◌,
  length,
}
use fastflow_client.Daemon.Accept.{
  modes_of, Server, new_server, Step, prepare, create, register, wake, settle, judge, stop_lock,
  stop_close, has, step, steps, waiting, judging, ended, idle, taken, returned,
}
use fastflow_client.Daemon.Accept.Ending.{steps_end}
use fastflow_client.Daemon.Accept.Handles.{
  IsAccounted, steps-IsAccounted, stopped_serves_at_most_one, IsGuarded, steps-IsGuarded,
  stop_closes_twice, pending,
}

-- Process 12 is the installed client.
abbrev accepts : ℕ → Bool
accepts pid = pid == 12

abbrev schedule : List Step
schedule =
    prepare true
    ∷ create true
    ∷ register
    ∷ wake (some 12)
    ∷ settle
    ∷ judge
    ∷ create true
    ∷ register
    ∷ wake (some 5)
    ∷ settle
    ∷ judge
    ∷ create true
    ∷ register
    ∷ []

abbrev busy : Server
busy = record {
  stopped = false;
  cur = some 2;
  first = false;
  phase = waiting 2;
  stopper = idle;
  handles = 3;
  modes = (3, 8) ∷ (3, 8) ∷ (0x80003, 8) ∷ [];
  closed = 1 ∷ [];
  served = (0, 12) ∷ [];
}

runs : steps accepts schedule new_server ≡ some busy
unfolding steps step modes_of new_server
runs = refl

new_server-IsAccounted : IsAccounted 1 new_server
unfolding new_server
new_server-IsAccounted = inl (omega arith)

steps-IsAccounted_example : IsAccounted 1 busy
steps-IsAccounted_example =
    steps-IsAccounted accepts 1 schedule new_server busy new_server-IsAccounted runs

steps-IsGuarded_example : IsGuarded accepts busy
steps-IsGuarded_example = steps-IsGuarded accepts schedule busy runs

-- `stop` comes in while the loop checks a peer.
abbrev caught : Server
caught = record busy { stopped = true; cur = none; stopper = taken none; phase = judging 2 12 }

abbrev late : Server
late = record busy {
  stopped = true;
  cur = none;
  stopper = returned;
  phase = ended;
  handles = 4;
  modes = (3, 8) ∷ (3, 8) ∷ (3, 8) ∷ (0x80003, 8) ∷ [];
  closed = 3 ∷ 1 ∷ [];
  served = (2, 12) ∷ (0, 12) ∷ [];
}

late_runs : steps accepts (stop_close ∷ judge ∷ create true ∷ register ∷ []) caught ≡ some late
unfolding steps step modes_of
late_runs = refl

stopped_serves_at_most_one_example :
    length late.served ≤ length caught.served + pending caught.phase
stopped_serves_at_most_one_example =
    stopped_serves_at_most_one accepts (stop_close ∷ judge ∷ create true ∷ register ∷ []) caught
      late refl late_runs

stop_closes_twice_example :
    (t : Server) × (steps accepts (stop_lock ∷ stop_close ∷ wake none ∷ settle ∷ []) busy ≡ some t)
    × (t.phase ≡ ended)
    × (t.closed ≡ 2 ∷ 2 ∷ 1 ∷ [])
stop_closes_twice_example = stop_closes_twice accepts 2 busy refl refl refl

-- `stop` returns while the loop waits for its third client.
abbrev halted : Server
halted = record busy { stopped = true; cur = none; stopper = returned; closed = 2 ∷ 1 ∷ [] }

halts : steps accepts (schedule ++ (stop_lock ∷ stop_close ∷ [])) new_server ≡ some halted
unfolding steps step modes_of new_server
halts = refl

abbrev gone : Server
gone = record halted { phase = ended; closed = 2 ∷ 2 ∷ 1 ∷ [] }

goes : steps accepts (wake none ∷ settle ∷ []) halted ≡ some gone
unfolding steps step modes_of
goes = refl

steps_end_example :
    ((h : ℕ) → halted.phase ≡ waiting h → has h halted.closed ≡ true)
    × (2 ≤ 3)
    × ((gone.phase ≡ ended) ⊎ ((a : Step) × (u : Server) × (step accepts a gone ≡ some u)))
steps_end_example =
    steps_end accepts (schedule ++ (stop_lock ∷ stop_close ∷ [])) (wake none ∷ settle ∷ []) halted
      gone halts refl goes
