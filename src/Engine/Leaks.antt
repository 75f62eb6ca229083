-- ===== src/Engine/Leaks.antt =====
-- What a panic of the core on the way up leaves open in engine_controller.go: `forceCleanupLocked`
-- looks at the fields of the engine, which `start` sets only after `instance.Start` has returned.
use fastflow_client.Base.{
  ℕ, ◌<◌, ◌≡◌, refl, ◌≢◌, inl, inr, Bool, true, false, ◌||◌, none, some, List, [], ◌∷◌, arith, ◌==◌,
  Bool-cases,
}
use fastflow_client.Base.Calls.{returned, panicked, blocked, ok}
use fastflow_client.Base.Text.{Text}
use fastflow_client.Engine.{
  Engine, Core, starting, set_status, force_cleanup, set_tun_fd, start_box, parse_config,
  start_body, settle, start, stop, Run, remove, open_context,
}
use fastflow_client.Engine.Lifecycle.{IsSettled}
use fastflow_client.Engine.Operations.{Op, start_op, stop_op, fd_op, perform, perform_all}

abbrev pub has : ℕ → List ℕ → Bool
has n [] = false
has n (m ∷ l) = n == m || has n l

has-remove : (n m : ℕ) (l : List ℕ) → n ≢ m → has n (remove m l) ≡ has n l
has-remove n m [] h = refl
has-remove n m (k ∷ l) h = ground (arith, has-remove n m l h)

-- The context and the box of the session `n` are open, and the engine no longer knows them.
pub record IsLost (n : ℕ) (e : Engine) : Type 0 where
  pub earlier : n < e.sessions
  pub not_instance : e.instance ≢ some n
  pub not_cancel : e.cancel ≢ some n
  pub context : has n e.live ≡ true
  pub box : has n e.boxes ≡ true

module _ (core : Core) where
  -- If `start` is called on a settled engine without an instance, and the core accepts the
  -- configuration, makes the box and then panics while it starts it, then the session's context is
  -- left uncancelled and its box open, with no field of the engine that refers to them.
  pub start-IsLost :
      (config : Text) (e : Engine) (options : core.Options) (v : Text)
      → IsSettled e
      → e.instance ≡ none
      → core.parse e.sessions config ≡ returned (ok options)
      → core.create e.sessions options ≡ returned (ok tt)
      → core.start e.sessions ≡ panicked v
      → IsLost e.sessions (start core config e).0
  unfolding start
  start-IsLost config e options v s off p c st = ground arith

  start_box-IsLost : (n m : ℕ) (e : Engine) → n ≢ m → IsLost n e → IsLost n (start_box core m e).0
  unfolding start_box
  start_box-IsLost n m e d l = ground (arith, has-remove n m e.live d, has-remove n m e.boxes d)

  parse_config-IsLost :
      (n m : ℕ) (config : Text) (e : Engine)
      → n ≢ m
      → IsLost n e
      → IsLost n (parse_config core m config e).0
  unfolding parse_config
  parse_config-IsLost n m config e d l =
      ground
        (arith, has-remove n m e.live d, start_box-IsLost n m (record e { boxes = m ∷ e.boxes }))

  start_body-IsLost :
      (n : ℕ) (config : Text) (e : Engine) → IsLost n e → IsLost n (start_body core config e).0
  unfolding start_body set_status
  start_body-IsLost n config e l =
      ground (arith, parse_config-IsLost n e.sessions config (open_context (set_status starting e)))

  force_cleanup-IsLost : (n : ℕ) (e : Engine) → IsLost n e → IsLost n (force_cleanup core e)
  unfolding force_cleanup
  force_cleanup-IsLost n e l = grind (arith, has-remove)

  settle-IsLost : (n : ℕ) (r : Run) → IsLost n r.0 → IsLost n (settle core r).0
  unfolding settle
  settle-IsLost n (e, returned r) l = ground arith
  settle-IsLost n (e, panicked v) l = grind (arith, has-remove)
  settle-IsLost n (e, blocked) l = l

  start-IsLost_kept :
      (n : ℕ) (config : Text) (e : Engine) → IsLost n e → IsLost n (start core config e).0
  unfolding start
  start-IsLost_kept n config e l = elim (Bool-cases e.locked) [
    | inl held ↦ ground arith
    | inr free ↦ simp free (
        settle-IsLost n (start_body core config (record e { locked = true }))
          (start_body-IsLost n config (record e { locked = true }) (ground arith)))
  ]

  stop-IsLost : (n : ℕ) (e : Engine) → IsLost n e → IsLost n (stop core e).0
  unfolding stop
  stop-IsLost n e l = grind (arith, has-remove)

  perform-IsLost : (n : ℕ) (op : Op) (e : Engine) → IsLost n e → IsLost n (perform core op e)
  unfolding set_tun_fd
  perform-IsLost n (start_op config) e l = start-IsLost_kept n config e l
  perform-IsLost n stop_op e l = stop-IsLost n e l
  perform-IsLost n (fd_op fd) e l = ground arith

  -- A session whose context and box are open and which no field of the engine refers to stays so,
  -- whatever operations follow.
  pub perform_all-IsLost :
      (n : ℕ) (ops : List Op) (e : Engine) → IsLost n e → IsLost n (perform_all core ops e)
  unfolding perform_all
  perform_all-IsLost n [] e l = l
  perform_all-IsLost n (op ∷ ops) e l =
      perform_all-IsLost n ops (perform core op e) (perform-IsLost n op e l)

  -- If `start` is called on a settled engine without an instance, and the core accepts the
  -- configuration, makes the box and then panics while it starts it, then the session's context is
  -- left uncancelled and its box open, no field of the engine refers to them, and no operations
  -- that follow change this.
  pub perform_all-IsLost-start :
      (ops : List Op) (config : Text) (e : Engine) (options : core.Options) (v : Text)
      → IsSettled e
      → e.instance ≡ none
      → core.parse e.sessions config ≡ returned (ok options)
      → core.create e.sessions options ≡ returned (ok tt)
      → core.start e.sessions ≡ panicked v
      → IsLost e.sessions (perform_all core ops (start core config e).0)
  perform_all-IsLost-start ops config e options v s i p c b =
      perform_all-IsLost e.sessions ops (start core config e).0
        (start-IsLost config e options v s i p c b)
