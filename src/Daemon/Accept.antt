-- ===== src/Daemon/Accept.antt =====
-- windows_daemon/ipc.go: the accept loop, the goroutine that it runs in, and `stop`, which another
-- thread calls. A step is one stretch of either between two places where the other can come in.
pub mod Handles
pub mod Ending
use fastflow_client.Base.{
  ℕ, ◌+◌, Bool, true, false, not, ◌&&◌, ◌||◌, Option, none, some, List, [], ◌∷◌, ◌==◌,
  if◌then◌else◌,
}
use fastflow_client.Daemon.Pipe.{pipe_instance}

-- Where the loop stands: at `makePipeSA`, at `createPipeInstance`, before the first lock, in
-- `waitForClient`, before the second lock with its result, before `verifyClient`, or behind its
-- `return`.
pub data Phase : Type 0 where
  preparing : Phase
  creating : Phase
  made : ℕ → Phase
  waiting : ℕ → Phase
  woken : ℕ → Option ℕ → Phase
  judging : ℕ → ℕ → Phase
  ended : Phase

-- Where `stop` stands: not called, behind its lock with the handle that it took, or returned.
pub data Stopper : Type 0 where
  idle : Stopper
  taken : Option ℕ → Stopper
  returned : Stopper

-- The server's fields, the two threads, and what they have done to pipe handles: those that were
-- created, numbered from 0, with the open mode and the pipe mode of each, the calls of
-- `CloseHandle`, and the connections that were given to `handle`, the latest first.
pub record Server : Type 0 where
  pub stopped : Bool
  pub cur : Option ℕ
  pub first : Bool
  pub phase : Phase
  pub stopper : Stopper
  pub handles : ℕ
  pub modes : List (ℕ × ℕ)
  pub closed : List ℕ
  pub served : List (ℕ × ℕ)

unfoldable pub new_server : Server
new_server = record {
  stopped = false;
  cur = none;
  first = true;
  phase = preparing;
  stopper = idle;
  handles = 0;
  modes = [];
  closed = [];
  served = [];
}

-- The steps, with what Windows decides: whether the security descriptor and a pipe are created, and
-- the process that connects.
pub data Step : Type 0 where
  prepare : Bool → Step
  create : Bool → Step
  register : Step
  wake : Option ℕ → Step
  settle : Step
  judge : Step
  stop_lock : Step
  stop_close : Step

abbrev pub has : ℕ → List ℕ → Bool
has h [] = false
has h (k ∷ l) = h == k || has h l

abbrev close : ℕ → Server → Server
close h s = record s { closed = h ∷ s.closed }

abbrev prepared : Bool → Server → Server
prepared false s = record s { phase = ended }
prepared true s = record s { phase = creating }

-- The two modes with which `createPipeInstance` makes a pipe.
unfoldable pub modes_of : Bool → ℕ × ℕ
unfolding pipe_instance
modes_of first = ((pipe_instance first tt).open_mode, (pipe_instance first tt).mode)

abbrev made_pipe : Bool → Server → Server
made_pipe false s = record s { phase = ended; first = false }
made_pipe true s = record s {
  phase = made s.handles;
  first = false;
  handles = s.handles + 1;
  modes = modes_of s.first ∷ s.modes;
}

abbrev register_pipe : ℕ → Server → Server
register_pipe h s =
    if s.stopped
    then record (close h s) { phase = ended }
    else record s { phase = waiting h; cur = some h }

abbrev settle_pipe : ℕ → Option ℕ → Server → Server
settle_pipe h peer s =
    let t = record s { cur = none } in
    if s.stopped then record (close h t) { phase = ended } else elim peer [
      | none ↦ record (close h t) { phase = creating }
      | some pid ↦ record t { phase = judging h pid }
    ]

-- A wait on a handle that was closed ends in an error.
abbrev wake_pipe : ℕ → Option ℕ → Server → Option Server
wake_pipe h none s = some (record s { phase = woken h none })
wake_pipe h (some pid) s =
    if has h s.closed then none else some (record s { phase = woken h (some pid) })

abbrev close_taken : Option ℕ → Server → Server
close_taken none s = record s { stopper = returned }
close_taken (some h) s = record (close h s) { stopper = returned }

-- `accepts` is `verifyClient`. A step that is not the thread's next one is `none`.
module _ (accepts : ℕ → Bool) where
  abbrev judge_pipe : ℕ → ℕ → Server → Server
  judge_pipe h pid s =
      if accepts pid
      then record s { phase = creating; served = (h, pid) ∷ s.served }
      else record (close h s) { phase = creating }

  abbrev loop_step : Phase → Step → Server → Option Server
  loop_step preparing (prepare b) s = some (prepared b s)
  loop_step creating (create b) s = some (made_pipe b s)
  loop_step (made h) register s = some (register_pipe h s)
  loop_step (waiting h) (wake peer) s = wake_pipe h peer s
  loop_step (woken h peer) settle s = some (settle_pipe h peer s)
  loop_step (judging h pid) judge s = some (judge_pipe h pid s)
  loop_step _ _ s = none

  abbrev stop_step : Stopper → Step → Server → Option Server
  stop_step idle stop_lock s = some (record s { stopped = true; cur = none; stopper = taken s.cur })
  stop_step (taken h) stop_close s = some (close_taken h s)
  stop_step _ _ s = none

  unfoldable pub step : Step → Server → Option Server
  step stop_lock s = stop_step s.stopper stop_lock s
  step stop_close s = stop_step s.stopper stop_close s
  step a s = loop_step s.phase a s

  -- A schedule of the two threads.
  unfoldable pub steps : List Step → Server → Option Server
  steps [] s = some s
  steps (a ∷ as') s = elim (step a s) [ none ↦ none | some t ↦ steps as' t ]
