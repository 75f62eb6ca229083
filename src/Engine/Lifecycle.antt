-- ===== src/Engine/Lifecycle.antt =====
-- What `start` and `stop` of engine_controller.go promise their callers.
use fastflow_client.Base.{
  ℕ, ◌≡◌, refl, ◌∙◌, ◌≢◌, ◌⊎◌, inl, inr, true, false, Option, none, some, List, [], arith,
  Option-cases,
}
use fastflow_client.Base.Calls.{Call, returned, panicked, blocked}
use fastflow_client.Base.Text.{Text}
use fastflow_client.Base.Int.{ℤ}
use fastflow_client.Engine.{
  set_tun_fd, Engine, Core, stopped, starting, running, error, Status, set_status, start_box,
  parse_config, start_body, settle, start, stop, Run, open_context, remove, already_running,
  new_engine,
}

-- The instance, the status and the last error of an engine between two operations.
abbrev Fits : Option ℕ → Status → Option Text → Type 0
Fits (some n) running message = message ≡ some []
Fits none stopped message = Unit
Fits none error message = message ≢ none
Fits _ _ _ = ⊥

pub record IsSettled (e : Engine) : Type 0 where
  pub free : e.locked ≡ false
  pub tied : e.cancel ≡ e.instance
  pub fits : Fits e.instance e.status e.last_error

-- An engine that failed to start with a message.
pub record HasFailed (message : Text) (e : Engine) : Type 0 where
  pub settled : IsSettled e
  pub empty : e.instance ≡ none
  pub failed : e.status ≡ error
  pub told : e.last_error ≡ some message

-- What a call of `start` comes to, from the state before it.
abbrev pub Started : Engine → Run → Type 0
Started e (e', returned none) =
    IsSettled e' × (e'.status ≡ running) × (e'.instance ≡ some e.sessions) × (e.instance ≡ none)
Started e (e', returned (some message)) =
    ((e.instance ≢ none) × (e' ≡ e) × (message ≡ already_running))
    ⊎ ((e.instance ≡ none) × HasFailed message e')
Started e (e', panicked v) = ⊥
Started e (e', blocked) = e'.locked ≡ true

-- What the body of `start` leaves for the deferred functions, in the session `n`.
abbrev Body : ℕ → Run → Type 0
Body n (e, returned none) =
    (e.instance ≡ some n) × (e.cancel ≡ some n) × (e.status ≡ running) × (e.last_error ≡ some [])
Body n (e, returned (some message)) =
    (e.instance ≡ none) × (e.cancel ≡ none) × (e.status ≡ error) × (e.last_error ≡ some message)
Body n (e, panicked v) = e.cancel ≡ e.instance
Body n (e, blocked) = e.locked ≡ true

-- A fresh engine is settled.
pub new_engine-IsSettled : IsSettled new_engine
unfolding new_engine
new_engine-IsSettled = record { free = refl; tied = refl; fits = tt }

module _ (core : Core) where
  start_box-Body :
      (n : ℕ) (e : Engine)
      → e.locked ≡ true
      → e.instance ≡ none
      → e.cancel ≡ none
      → Body n (start_box core n e)
  unfolding start_box
  start_box-Body n e l i c = ground arith

  parse_config-Body :
      (n : ℕ) (config : Text) (e : Engine)
      → e.locked ≡ true
      → e.instance ≡ none
      → e.cancel ≡ none
      → Body n (parse_config core n config e)
  unfolding parse_config
  parse_config-Body n config e l i c = ground arith

  start_body-Body :
      (config : Text) (e : Engine)
      → e.locked ≡ true
      → e.instance ≡ none
      → e.cancel ≡ none
      → Body e.sessions (start_body core config e)
  unfolding start_body
  start_body-Body config e l i c =
      ground (arith, parse_config-Body e.sessions config (open_context (set_status starting e)))

  settle_lem :
      (e : Engine) (r : Run) → e.instance ≡ none → Body e.sessions r → Started e (settle core r)
  unfolding settle
  settle_lem e (e', returned none) i b = ground arith
  settle_lem e (e', returned (some m)) i b =
      inr (i, record { settled = ground arith; empty = b.0; failed = b.2; told = b.3 })
  settle_lem e (e', panicked v) i b = inr (
    i,
    record {
      settled = ground arith;
      empty = ground arith;
      failed = ground arith;
      told = ground arith;
    },
  )
  settle_lem e (e', blocked) i b = b

  -- Whatever the core does, a call of `start` on a settled engine ends in one of four ways. It
  -- returns nil: the engine had no instance, and now runs the new session. It returns an error and
  -- the engine, which had an instance, is unchanged. It returns an error, and the engine has no
  -- instance, the status "error" and that message. Or the core never comes back and the mutex
  -- stays locked. No panic of the core passes through.
  pub start-Started : (config : Text) (e : Engine) → IsSettled e → Started e (start core config e)
  unfolding start
  start-Started config e s = simp s.free (elim (Option-cases e.instance) [
    | inl off ↦
        settle_lem e (start_body core config (record e { locked = true })) off
          (start_body-Body config (record e { locked = true }) refl off (s.tied ∙ off))
    | inr (n, on) ↦ ground arith
  ])

  -- The open boxes after a call of `Close` on one of them.
  abbrev pub boxes_after : Call (Unit {0}) → ℕ → List ℕ → List ℕ
  boxes_after (returned u) n l = remove n l
  boxes_after _ n l = l

  -- What is left open of an engine's session when `stop` comes back.
  abbrev pub Stopped : Option ℕ → Engine → Engine → Type 0
  Stopped none e e' = (e'.live ≡ e.live) × (e'.boxes ≡ e.boxes)
  Stopped (some n) e e' =
      (e'.live ≡ remove n e.live) × (e'.boxes ≡ boxes_after (core.close n) n e.boxes)

  pub stop_lem :
      (e : Engine)
      → IsSettled e
      → let (e', r) = stop core e in
        (r ≡ returned tt)
        × IsSettled e'
        × (e'.instance ≡ none)
        × (e'.status ≡ stopped)
        × (e'.last_error ≡ e.last_error)
        × Stopped e.instance e e'
  unfolding stop
  stop_lem e s = elim (Option-cases e.instance) [
    | inl off ↦ ground arith
    | inr (n, on) ↦ ground arith
  ]

  pub set_tun_fd-IsSettled : (fd : ℤ) (e : Engine) → IsSettled e → IsSettled (set_tun_fd fd e)
  unfolding set_tun_fd
  set_tun_fd-IsSettled fd e s = ground arith
