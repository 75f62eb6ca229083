-- ===== src/Engine/Statuses.antt =====
-- The statuses that engine_controller.go stores, in their order: what a concurrent `GetStatus`
-- can see one after the other.
use fastflow_client.Base.{
  ℕ, ◌≡◌, refl, ◌⊎◌, inl, inr, Bool, true, false, none, some, List, [], ◌∷◌, arith,
}
use fastflow_client.Base.Calls.{returned, panicked, blocked}
use fastflow_client.Base.Text.{Text}
use fastflow_client.Engine.{
  Engine, Core, stopped, starting, running, stopping, error, Status, set_status, set_tun_fd,
  parse_config, start_body, settle, start, stop, Run, open_context,
}
use fastflow_client.Engine.Lifecycle.{IsSettled}
use fastflow_client.Engine.Operations.{
  Op, start_op, stop_op, fd_op, perform, perform_all, perform-IsSettled,
}

-- The changes of status that a reader may see. A panic while the poller is being set up leads from
-- "running" to "error".
abbrev pub may_follow : Status → Status → Bool
may_follow starting stopped = true
may_follow starting error = true
may_follow running starting = true
may_follow error starting = true
may_follow error running = true
may_follow stopping running = true
may_follow stopped stopping = true
may_follow stopped stopped = true
may_follow stopped error = true
may_follow _ _ = false

-- A history, the latest status first.
abbrev Follows : Status → List Status → Type 0
Follows s [] = Unit
Follows s (t ∷ l) = (may_follow s t ≡ true) × Follows t l

abbrev Ends : Status → List Status → Type 0
Ends s [] = ⊥
Ends s (t ∷ l) = (s ≡ t) × Follows t l

-- The history ends in the engine's status, and each status in it may follow the one before.
abbrev pub IsTraced : Engine → Type 0
IsTraced e = Ends e.status e.shown

Follows-Ends : (s t : Status) (l : List Status) → Ends t l → may_follow s t ≡ true → Follows s l
Follows-Ends s t [] h m = absurd h
Follows-Ends s t (u ∷ l) h m = (rw h.0 at m, h.1)

abbrev TracedRun : Run → Type 0
TracedRun (e, returned none) = IsTraced e
TracedRun (e, returned (some message)) = IsTraced e
TracedRun (e, panicked v) = IsTraced e × ((e.status ≡ starting) ⊎ (e.status ≡ running))
TracedRun (e, blocked) = IsTraced e

module _ (core : Core) where
  parse_config-TracedRun :
      (n : ℕ) (config : Text) (e : Engine)
      → IsTraced e
      → e.status ≡ starting
      → TracedRun (parse_config core n config e)
  unfolding parse_config
  parse_config-TracedRun n config e t s =
      ground (arith, Follows-Ends running e.status e.shown, Follows-Ends error e.status e.shown)

  start_body-TracedRun :
      (config : Text) (e : Engine)
      → IsSettled e
      → IsTraced e
      → TracedRun (start_body core config (record e { locked = true }))
  unfolding start_body set_status
  start_body-TracedRun config e s t = ground (
    arith,
    Follows-Ends starting e.status e.shown,
    parse_config-TracedRun e.sessions config
        (open_context (set_status starting (record e { locked = true }))),
  )

  settle-IsTraced : (r : Run) → TracedRun r → IsTraced (settle core r).0
  unfolding settle
  settle-IsTraced (e, returned none) t = t
  settle-IsTraced (e, returned (some m)) t = t
  settle-IsTraced (e, panicked v) t = ground (arith, Follows-Ends error e.status e.shown)
  settle-IsTraced (e, blocked) t = t

  start-IsTraced :
      (config : Text) (e : Engine) → IsSettled e → IsTraced e → IsTraced (start core config e).0
  unfolding start
  start-IsTraced config e s t = simp s.free (
      settle-IsTraced (start_body core config (record e { locked = true }))
        (start_body-TracedRun config e s t))

  stop-IsTraced : (e : Engine) → IsSettled e → IsTraced e → IsTraced (stop core e).0
  unfolding stop
  stop-IsTraced e s t =
      ground (arith, Follows-Ends stopped e.status e.shown, Follows-Ends stopping e.status e.shown)

  perform-IsTraced :
      (op : Op) (e : Engine) → IsSettled e → IsTraced e → IsTraced (perform core op e)
  unfolding set_tun_fd
  perform-IsTraced (start_op config) e s t = start-IsTraced config e s t
  perform-IsTraced stop_op e s t = stop-IsTraced e s t
  perform-IsTraced (fd_op fd) e s t = t

  perform_all-unchanged :
      (ops : List Op) (e : Engine)
      → e.locked ≡ true
      → ((perform_all core ops e).shown ≡ e.shown) × ((perform_all core ops e).status ≡ e.status)
  unfolding perform_all start stop set_tun_fd
  perform_all-unchanged [] e l = (refl, refl)
  perform_all-unchanged (start_op c ∷ ops) e l =
      ground (arith, perform_all-unchanged ops (perform core (start_op c) e))
  perform_all-unchanged (stop_op ∷ ops) e l =
      ground (arith, perform_all-unchanged ops (perform core stop_op e))
  perform_all-unchanged (fd_op f ∷ ops) e l = perform_all-unchanged ops (set_tun_fd f e) l

  -- Along any operations on a settled engine whose history is traced, each status stored may
  -- follow the one stored before it, and the last one stored is the engine's status.
  pub perform_all-IsTraced :
      (ops : List Op) (e : Engine) → IsSettled e → IsTraced e → IsTraced (perform_all core ops e)
  unfolding perform_all
  perform_all-IsTraced [] e s t = t
  perform_all-IsTraced (op ∷ ops) e s t = elim (perform-IsSettled core op e s) [
    | inl s' ↦ perform_all-IsTraced ops (perform core op e) s' (perform-IsTraced op e s t)
    | inr l ↦
        let u = perform_all-unchanged ops (perform core op e) l in
        rw (u.0, u.1) (perform-IsTraced op e s t)
  ]
