-- ===== src/Daemon/Accept/Handles.antt =====
-- What the accept loop of windows_daemon/ipc.go does with its pipe handles, over every schedule of
-- the loop and of `stop`.
use fastflow_client.Base.{
  ℕ, ◌+◌, ◌≤◌, ◌≡◌, refl, ◌≢◌, ◌⊎◌, inl, inr, Bool, true, false, ◌||◌, none, some, List, [], ◌∷◌,
  arith, ◌==◌, ◌/◌, ◌%◌, length, Option-cases,
}
use mathlib.Core.Path.{subst}
use fastflow_client.Daemon.Accept.{
  Phase, made, waiting, woken, judging, ended, idle, returned, Server, new_server, Step, prepare,
  create, register, wake, settle, judge, stop_lock, stop_close, has, step, steps, modes_of,
}

-- The handle that the loop has in hand.
abbrev pub in_hand : ℕ → Phase → Bool
in_hand h (made k) = h == k
in_hand h (waiting k) = h == k
in_hand h (woken k peer) = h == k
in_hand h (judging k pid) = h == k
in_hand h _ = false

abbrev pub has_served : ℕ → List (ℕ × ℕ) → Bool
has_served h [] = false
has_served h ((k, pid) ∷ l) = h == k || has_served h l

-- A handle that was created is in the loop's hand, closed, or given to a connection.
abbrev pub IsAccounted : ℕ → Server → Type 0
IsAccounted h s =
    (s.handles ≤ h) ⊎ ((in_hand h s.phase || (has h s.closed || has_served h s.served)) ≡ true)

-- A connection that the loop has accepted and not yet given to `handle`.
abbrev pub pending : Phase → ℕ
pending (judging h pid) = 1
pending _ = 0

-- The bits that Windows documents for FILE_FLAG_FIRST_PIPE_INSTANCE and PIPE_REJECT_REMOTE_CLIENTS.
unfoldable pub exclusive : ℕ × ℕ → Bool
exclusive (opened, mode) = opened / 524288 % 2 == 1

unfoldable pub rejects_remote : ℕ × ℕ → Bool
rejects_remote (opened, mode) = mode / 8 % 2 == 1

modes_of_guarded :
    (first : Bool) → (exclusive (modes_of first) ≡ first) × (rejects_remote (modes_of first) ≡ true)
unfolding exclusive rejects_remote modes_of
modes_of_guarded true = (refl, refl)
modes_of_guarded false = (refl, refl)

module _ (accepts : ℕ → Bool) where
  -- An invariant of each step is one of each schedule.
  pub steps-keep :
      (P : Server → Type 0)
      → ((a : Step) (s t : Server) → P s → step accepts a s ≡ some t → P t)
      → (as' : List Step) (s t : Server) → P s
      → steps accepts as' s ≡ some t
      → P t
  unfolding steps
  steps-keep P keep [] s t p e = subst P (ground arith) p
  steps-keep P keep (a ∷ as') s t p e = elim (Option-cases (step accepts a s)) [
    | inl n ↦ absurd (ground arith)
    | inr (u, n) ↦ steps-keep P keep as' u t (keep a s u p n) (ground arith)
  ]

  step-IsAccounted :
      (h : ℕ) (a : Step) (s t : Server)
      → IsAccounted h s
      → step accepts a s ≡ some t
      → IsAccounted h t
  unfolding step
  step-IsAccounted h (prepare true) s t p e = ground arith
  step-IsAccounted h (prepare false) s t p e = ground arith
  step-IsAccounted h (create true) s t p e = ground arith
  step-IsAccounted h (create false) s t p e = ground arith
  step-IsAccounted h register s t p e = ground arith
  step-IsAccounted h (wake none) s t p e = ground arith
  step-IsAccounted h (wake (some pid)) s t p e = ground arith
  step-IsAccounted h settle s t p e = ground arith
  step-IsAccounted h judge s t p e = ground arith
  step-IsAccounted h stop_lock s t p e = ground arith
  step-IsAccounted h stop_close s t p e = ground arith

  -- No handle is lost: a schedule keeps it true that a handle, if it was created, is in the loop's
  -- hand, has been closed, or was given to a connection.
  pub steps-IsAccounted :
      (h : ℕ) (as' : List Step) (s t : Server)
      → IsAccounted h s
      → steps accepts as' s ≡ some t
      → IsAccounted h t
  steps-IsAccounted h = steps-keep (IsAccounted h) (step-IsAccounted h)

  -- The connections given to `handle`, with one that is on its way.
  abbrev IsLimited : ℕ → Server → Type 0
  IsLimited n s = (s.stopped ≡ true) × (length s.served + pending s.phase ≤ n)

  step-IsLimited :
      (n : ℕ) (a : Step) (s t : Server) → IsLimited n s → step accepts a s ≡ some t → IsLimited n t
  unfolding step
  step-IsLimited n (prepare true) s t p e = ground arith
  step-IsLimited n (prepare false) s t p e = ground arith
  step-IsLimited n (create true) s t p e = ground arith
  step-IsLimited n (create false) s t p e = ground arith
  step-IsLimited n register s t p e = ground arith
  step-IsLimited n (wake none) s t p e = ground arith
  step-IsLimited n (wake (some pid)) s t p e = ground arith
  step-IsLimited n settle s t p e = ground arith
  step-IsLimited n judge s t p e = ground arith
  step-IsLimited n stop_lock s t p e = ground arith
  step-IsLimited n stop_close s t p e = ground arith

  -- Once `stop` has set its flag, no schedule lets more than one further connection through, and
  -- none unless the loop was already checking a peer.
  pub stopped_serves_at_most_one :
      (as' : List Step) (s t : Server)
      → s.stopped ≡ true
      → steps accepts as' s ≡ some t
      → length t.served ≤ length s.served + pending s.phase
  stopped_serves_at_most_one as' s t h e = omega (
    arith,
    (steps-keep (IsLimited (length s.served + pending s.phase))
        (step-IsLimited (length s.served + pending s.phase)) as' s t (h, omega arith) e).1,
  )

  abbrev AreAccepted : List (ℕ × ℕ) → Type 0
  AreAccepted [] = Unit
  AreAccepted ((h, pid) ∷ l) = (accepts pid ≡ true) × AreAccepted l

  -- The first pipe, the last of the list, and no other has the flag.
  abbrev OnlyFirst : List (ℕ × ℕ) → Type 0
  OnlyFirst [] = Unit
  OnlyFirst (m ∷ []) = exclusive m ≡ true
  OnlyFirst (m ∷ n ∷ l) = (exclusive m ≡ false) × OnlyFirst (n ∷ l)

  abbrev AreLocal : List (ℕ × ℕ) → Type 0
  AreLocal [] = Unit
  AreLocal (m ∷ l) = (rejects_remote m ≡ true) × AreLocal l

  -- Only accepted peers are served, the modes of the first pipe alone carry the flag of a first
  -- instance, and those of all pipes the one that refuses remote clients.
  pub record IsGuarded (s : Server) : Type 0 where
    pub accepted : AreAccepted s.served
    pub flagged : OnlyFirst s.modes
    pub local_only : AreLocal s.modes
    pub fresh : (s.first ≡ false) ⊎ (s.modes ≡ [])
    pub used : (s.first ≡ true) ⊎ ((s.modes ≢ []) ⊎ (s.phase ≡ ended))

  step-IsGuarded : (a : Step) (s t : Server) → IsGuarded s → step accepts a s ≡ some t → IsGuarded t
  unfolding step
  step-IsGuarded (prepare true) s t p e = ground arith
  step-IsGuarded (prepare false) s t p e = ground arith
  step-IsGuarded (create true) s t p e = go s.modes refl
    where
      go : (l : List (ℕ × ℕ)) → s.modes ≡ l → IsGuarded t
      go [] q = ground (arith, modes_of_guarded s.first)
      go (m ∷ l) q = ground (arith, modes_of_guarded s.first)
  step-IsGuarded (create false) s t p e = ground arith
  step-IsGuarded register s t p e = ground arith
  step-IsGuarded (wake none) s t p e = ground arith
  step-IsGuarded (wake (some pid)) s t p e = ground arith
  step-IsGuarded settle s t p e = ground arith
  step-IsGuarded judge s t p e = ground arith
  step-IsGuarded stop_lock s t p e = ground arith
  step-IsGuarded stop_close s t p e = ground arith

  -- From a fresh server, after any schedule: every connection that was given to `handle` is of a
  -- peer that `verifyClient` accepts. Of the modes that `createPipeInstance` hands to
  -- `CreateNamedPipe`, the open mode of the first pipe, and of no other, has the bit of
  -- FILE_FLAG_FIRST_PIPE_INSTANCE, with which the creation fails if another process owns the name;
  -- the pipe mode of every pipe has the bit of PIPE_REJECT_REMOTE_CLIENTS.
  pub steps-IsGuarded :
      (as' : List Step) (t : Server) → steps accepts as' new_server ≡ some t → IsGuarded t
  unfolding new_server
  steps-IsGuarded as' t e =
      steps-keep IsGuarded step-IsGuarded as' new_server t
        (record { accepted = tt; flagged = tt; local_only = tt; fresh = inr refl; used = inl refl })
        e

  -- A first `stop` that meets the loop in its wait closes the pipe's handle, and the loop, whose
  -- wait then fails, closes the same handle a second time and ends.
  pub stop_closes_twice :
      (h : ℕ) (s : Server)
      → s.phase ≡ waiting h
      → s.cur ≡ some h
      → s.stopper ≡ idle
      → (t : Server) × (steps accepts (stop_lock ∷ stop_close ∷ wake none ∷ settle ∷ []) s ≡ some t)
        × (t.phase ≡ ended)
        × (t.closed ≡ h ∷ h ∷ s.closed)
  unfolding steps step
  stop_closes_twice h s p c i = (
    record s {
      stopped = true;
      cur = none;
      phase = ended;
      stopper = returned;
      closed = h ∷ h ∷ s.closed;
    },
    ground arith,
    refl,
    refl,
  )
