-- ===== src/Engine/Success.antt =====
-- When `start` of engine_controller.go reports success.
use fastflow_client.Base.{ℕ, ◌≡◌, refl, inl, inr, true, Option, none, ◌∷◌, ◌↔◌, arith, Option-cases}
use fastflow_client.Base.Calls.{Call, returned, panicked, blocked, Result, ok, err}
use fastflow_client.Base.Text.{Text}
use fastflow_client.Traffic.Reader.{Server}
use fastflow_client.Engine.{
  Engine, Core, starting, set_status, start_box, parse_config, start_body, settle, start, Run,
  open_context, start_poller, create_box, publish_instance,
}
use fastflow_client.Engine.Lifecycle.{IsSettled}

module _ (core : Core) where
  -- Every call of the core on the way up has succeeded, and the look for its server has returned.
  pub record CoreSucceeds (n : ℕ) (config : Text) : Type 0 where
    pub options : core.Options
    pub server : Option Server
    pub parsed : core.parse n config ≡ returned (ok options)
    pub created : core.create n options ≡ returned (ok tt)
    pub started : core.start n ≡ returned (ok tt)
    pub served : core.server n ≡ returned server

  settled_success : (r : Run) → (settle core r).1 ≡ returned none → r.1 ≡ returned none
  unfolding settle
  settled_success (e, returned r) h = h
  settled_success (e, panicked v) h = absurd (ground arith)
  settled_success (e, blocked) h = absurd (ground arith)

  start_poller_success :
      (n : ℕ) (e : Engine)
      → (start_poller core n e).1 ≡ returned none
      → (server : Option Server) × (core.server n ≡ returned server)
  unfolding start_poller
  start_poller_success n e h = go (core.server n) refl
    where
      go :
          (r : Call (Option Server))
          → core.server n ≡ r
          → (server : Option Server) × (core.server n ≡ returned server)
      go (returned s) q = (s, q)
      go (panicked v) q = absurd (ground arith)
      go blocked q = absurd (ground arith)

  start_box_success :
      (n : ℕ) (e : Engine)
      → (start_box core n e).1 ≡ returned none
      → (core.start n ≡ returned (ok tt))
        × ((server : Option Server) × (core.server n ≡ returned server))
  unfolding start_box
  start_box_success n e h = go (core.start n) refl
    where
      go :
          (r : Call (Result (Unit {0})))
          → core.start n ≡ r
          → (core.start n ≡ returned (ok tt))
            × ((server : Option Server) × (core.server n ≡ returned server))
      go (returned (ok u)) q = (q, start_poller_success n (publish_instance n e) (ground arith))
      go (returned (err m)) q = absurd (ground arith)
      go (panicked v) q = absurd (ground arith)
      go blocked q = absurd (ground arith)

  create_box_success :
      (n : ℕ) (options : core.Options) (e : Engine)
      → (create_box core n options e).1 ≡ returned none
      → (core.create n options ≡ returned (ok tt))
        × ((core.start n ≡ returned (ok tt))
            × ((server : Option Server) × (core.server n ≡ returned server)))
  unfolding create_box
  create_box_success n options e h = go (core.create n options) refl
    where
      go :
          (r : Call (Result (Unit {0})))
          → core.create n options ≡ r
          → (core.create n options ≡ returned (ok tt))
            × ((core.start n ≡ returned (ok tt))
                × ((server : Option Server) × (core.server n ≡ returned server)))
      go (returned (ok u)) q =
          (q, start_box_success n (record e { boxes = n ∷ e.boxes }) (ground arith))
      go (returned (err m)) q = absurd (ground arith)
      go (panicked v) q = absurd (ground arith)
      go blocked q = absurd (ground arith)

  parse_config_success :
      (n : ℕ) (config : Text) (e : Engine)
      → (parse_config core n config e).1 ≡ returned none
      → CoreSucceeds n config
  unfolding parse_config
  parse_config_success n config e h = go (core.parse n config) refl
    where
      go : (r : Call (Result core.Options)) → core.parse n config ≡ r → CoreSucceeds n config
      go (returned (ok options)) q =
          let (c, (st, (server, sv))) = create_box_success n options e (ground arith) in
          record {
            options = options;
            server = server;
            parsed = q;
            created = c;
            started = st;
            served = sv;
          }
      go (returned (err m)) q = absurd (ground arith)
      go (panicked v) q = absurd (ground arith)
      go blocked q = absurd (ground arith)

  start_body_success :
      (config : Text) (e : Engine)
      → (start_body core config e).1 ≡ returned none
      → (e.instance ≡ none) × CoreSucceeds e.sessions config
  unfolding start_body
  start_body_success config e h = elim (Option-cases e.instance) [
    | inl off ↦ (
      off,
      parse_config_success e.sessions config (open_context (set_status starting e)) (ground arith),
    )
    | inr (n, on) ↦ absurd (ground arith)
  ]

  -- `start` on a settled engine returns nil exactly where the engine has no instance, and the core
  -- accepts the configuration, makes the box, starts it and returns from the look for its server:
  -- no error, panic or hang of any of these calls is reported as a success, whether or not a
  -- server is found.
  pub start_succeeds_iff :
      (config : Text) (e : Engine)
      → IsSettled e
      → ((start core config e).1 ≡ returned none)
        ↔ ((e.instance ≡ none) × CoreSucceeds e.sessions config)
  unfolding start
  start_succeeds_iff config e s = (
    λ h.
        start_body_success config (record e { locked = true })
          (settled_success (start_body core config (record e { locked = true })) (ground arith)),
    λ (off, c). ground (arith, c.parsed, c.created, c.started, c.served),
  )
