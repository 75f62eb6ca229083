-- ===== src/Daemon/Accept/Ending.antt =====
-- The accept loop of windows_daemon/ipc.go ends once `stop` has returned.
use fastflow_client.Base.{
  ℕ, ◌+◌, ◌≤◌, ◌≡◌, refl, ◌≢◌, ◌⊎◌, inl, inr, Bool, true, false, Option, none, some, List, [], ◌∷◌,
  arith, length, Option-cases,
}
use fastflow_client.Daemon.Accept.{
  Phase, preparing, creating, made, waiting, woken, judging, ended, Stopper, idle, taken, returned,
  Server, new_server, Step, prepare, create, register, wake, settle, judge, stop_lock, stop_close,
  has, step, steps,
}
use fastflow_client.Daemon.Accept.Handles.{steps-keep}

-- How many steps are left to a loop that has been told to stop.
abbrev pub steps_left : Phase → ℕ
steps_left preparing = 3
steps_left creating = 2
steps_left (made h) = 1
steps_left (waiting h) = 2
steps_left (woken h peer) = 1
steps_left (judging h pid) = 3
steps_left ended = 0

-- `stop` is behind its lock exactly if the flag is set.
abbrev Told : Bool → Stopper → Type 0
Told b idle = b ≡ false
Told b (taken h) = b ≡ true
Told b returned = b ≡ true

-- A handle that the loop waits on will be closed by a `stop`, or has been.
abbrev Reached : Phase → Option ℕ → Stopper → List ℕ → Type 0
Reached (waiting h) cur idle closed = cur ≡ some h
Reached (waiting h) cur (taken k) closed = k ≡ some h
Reached (waiting h) cur returned closed = has h closed ≡ true
Reached _ _ _ _ = Unit

pub record IsReachable (s : Server) : Type 0 where
  pub told : Told s.stopped s.stopper
  pub reached : Reached s.phase s.cur s.stopper s.closed

module _ (accepts : ℕ → Bool) where
  step-IsReachable :
      (a : Step) (s t : Server) → IsReachable s → step accepts a s ≡ some t → IsReachable t
  unfolding step
  step-IsReachable (prepare true) s t p e = ground arith
  step-IsReachable (prepare false) s t p e = ground arith
  step-IsReachable (create true) s t p e = ground arith
  step-IsReachable (create false) s t p e = ground arith
  step-IsReachable register s t p e = ground arith
  step-IsReachable (wake none) s t p e = ground arith
  step-IsReachable (wake (some pid)) s t p e = ground arith
  step-IsReachable settle s t p e = ground arith
  step-IsReachable judge s t p e = ground arith
  step-IsReachable stop_lock s t p e = ground arith
  step-IsReachable stop_close s t p e = ground arith

  -- A step after `stop` has returned is one of the loop, and brings its end nearer.
  step_left :
      (a : Step) (s t : Server)
      → (s.stopped ≡ true) × (s.stopper ≡ returned)
      → step accepts a s ≡ some t
      → (t.stopped ≡ true) × (t.stopper ≡ returned) × (steps_left t.phase + 1 ≤ steps_left s.phase)
  unfolding step
  step_left (prepare true) s t p e = ground arith
  step_left (prepare false) s t p e = ground arith
  step_left (create true) s t p e = ground arith
  step_left (create false) s t p e = ground arith
  step_left register s t p e = ground arith
  step_left (wake none) s t p e = ground arith
  step_left (wake (some pid)) s t p e = ground arith
  step_left settle s t p e = ground arith
  step_left judge s t p e = ground arith
  step_left stop_lock s t p e = ground arith
  step_left stop_close s t p e = ground arith

  steps_left_lem :
      (as' : List Step) (s t : Server)
      → (s.stopped ≡ true) × (s.stopper ≡ returned)
      → steps accepts as' s ≡ some t
      → length as' + steps_left t.phase ≤ steps_left s.phase
  unfolding steps
  steps_left_lem [] s t p e = ground arith
  steps_left_lem (a ∷ as') s t p e = elim (Option-cases (step accepts a s)) [
    | inl n ↦ absurd (ground arith)
    | inr (u, n) ↦
        let (flag, back, nearer) = step_left a s u p n in
        let later = steps_left_lem as' u t (flag, back) (ground arith) in
        omega (arith, nearer, later)
  ]

  abbrev GoesOn : Server → Type 0
  GoesOn s = (a : Step) × (t : Server) × (step accepts a s ≡ some t)

  enabled : (a : Step) (s : Server) → step accepts a s ≢ none → GoesOn s
  enabled a s n = elim (Option-cases (step accepts a s)) [
    | inl e ↦ absurd (n e)
    | inr (t, e) ↦ (a, t, e)
  ]

  -- The next step of the loop, wherever it stands.
  goes_on : (s : Server) (phase : Phase) → s.phase ≡ phase → (s.phase ≡ ended) ⊎ GoesOn s
  unfolding step
  goes_on s preparing q = inr (enabled (prepare true) s (λ e. ground arith))
  goes_on s creating q = inr (enabled (create true) s (λ e. ground arith))
  goes_on s (made h) q = inr (enabled register s (λ e. ground arith))
  goes_on s (waiting h) q = inr (enabled (wake none) s (λ e. ground arith))
  goes_on s (woken h peer) q = inr (enabled settle s (λ e. ground arith))
  goes_on s (judging h pid) q = inr (enabled judge s (λ e. ground arith))
  goes_on s ended q = inl q

  few_left : (phase : Phase) → steps_left phase ≤ 3
  few_left phase = ground arith

  waited_is_closed :
      (s : Server) (h : ℕ)
      → IsReachable s
      → s.stopper ≡ returned
      → s.phase ≡ waiting h
      → has h s.closed ≡ true
  waited_is_closed s h r q w = ground (arith, r.reached)

  new_server-IsReachable : IsReachable new_server
  unfolding new_server
  new_server-IsReachable = record { told = refl; reached = tt }

  -- Once `stop` has returned, after any schedule from a fresh server: if the loop waits for a client,
  -- the handle that it waits on has been closed, so that the wait ends. Whatever else happens, at
  -- most three more steps follow, and until the loop has ended there is a next one.
  pub steps_end :
      (before after : List Step) (s t : Server)
      → steps accepts before new_server ≡ some s
      → s.stopper ≡ returned
      → steps accepts after s ≡ some t
      → ((h : ℕ) → s.phase ≡ waiting h → has h s.closed ≡ true)
        × (length after ≤ 3)
        × ((t.phase ≡ ended) ⊎ ((a : Step) × (u : Server) × (step accepts a t ≡ some u)))
  steps_end before after s t e q f =
      let reachable =
        steps-keep accepts IsReachable step-IsReachable before new_server s new_server-IsReachable
          e in
      let flag = reachable.told in
      (
        (λ h w. waited_is_closed s h reachable q w),
        omega (arith, steps_left_lem after s t (rw q at flag, q) f, few_left s.phase),
        goes_on t t.phase refl,
      )
