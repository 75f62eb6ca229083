-- ===== src/Engine/Exports.antt =====
-- The exported functions of engine_controller.go, as the host application calls them. Strings are
-- copied across the boundary of C.
use fastflow_client.Base.{ℕ, ◌≡◌, ◌≢◌, refl, ◌⊎◌, inl, inr, true, none, some, [], ◌++◌, arith}
use fastflow_client.Base.Calls.{Call, returned, panicked, blocked}
use fastflow_client.Base.Text.{Text, codes}
use fastflow_client.Engine.{
  Engine, Core, Run, start, stop, start_reply, get_status, get_last_error, status_name, stats_json,
  already_running, running,
}
use fastflow_client.Engine.Lifecycle.{IsSettled, Started, start-Started}

module _ (core : Core) where
  abbrev replied : Run → Engine × Call Text
  replied (e, returned r) = (e, returned (start_reply r))
  replied (e, panicked v) = (e, panicked v)
  replied (e, blocked) = (e, blocked)

  -- `StartEngine`
  unfoldable pub start_engine : Text → Engine → Engine × Call Text
  unfolding start_reply start
  start_engine config e = replied (start core config e)

  -- `StopEngine`
  unfoldable pub stop_engine : Engine → Engine × Call (Unit {0})
  unfolding stop
  stop_engine e = stop core e

-- `GetStats`
unfoldable pub get_stats : Engine → Text
unfolding stats_json
get_stats e = stats_json e

-- What the host reads after a call of `StartEngine`, from the engine before it.
abbrev pub Replied : Engine → Engine × Call Text → Type 0
Replied e (e', returned reply) =
    ((reply ≡ codes "SUCCESS")
      × (e.instance ≡ none)
      × (get_status e' ≡ codes "running")
      × (get_last_error e' ≡ []))
    ⊎ ((reply ≡ codes "ERROR: engine already running") × (e.instance ≢ none) × (e' ≡ e))
    ⊎ ((reply ≡ codes "ERROR: " ++ get_last_error e')
        × (e.instance ≡ none)
        × (get_status e' ≡ codes "error"))
Replied e (e', panicked v) = ⊥
Replied e (e', blocked) = e'.locked ≡ true

module _ (core : Core) where
  already_reply : codes "ERROR: " ++ already_running ≡ codes "ERROR: engine already running"
  unfolding codes
  already_reply = refl

  running_message :
      (e : Engine) (n : ℕ)
      → IsSettled e
      → e.instance ≡ some n
      → e.status ≡ running
      → get_last_error e ≡ []
  unfolding get_last_error
  running_message e n s i r = ground (arith, s.fits)

  Started-Replied : (e : Engine) (r : Run) → IsSettled e → Started e r → Replied e (replied core r)
  unfolding start_reply get_status get_last_error status_name
  Started-Replied e (e', returned none) s h =
      inl (refl, h.3, rw h.1 refl, running_message e' e.sessions h.0 h.2 h.1)
  Started-Replied e (e', returned (some m)) s (inl h) =
      inr (inl (rw (h.2, already_reply), h.0, h.1))
  Started-Replied e (e', returned (some m)) s (inr h) =
      inr (inr (rw h.1.told refl, h.0, rw h.1.failed refl))
  Started-Replied e (e', panicked v) s h = h
  Started-Replied e (e', blocked) s h = h

  -- On a settled engine, whatever the core does: where `StartEngine` comes back, it replies
  -- "SUCCESS", and then `GetStatus` says "running" and there is no last error; or it replies that
  -- the engine is running already, and nothing has changed; or it replies with an error that
  -- `GetEngineLastError` repeats, and `GetStatus` says "error".
  pub start_engine-Replied :
      (config : Text) (e : Engine) → IsSettled e → Replied e (start_engine core config e)
  unfolding start_engine
  start_engine-Replied config e s =
      Started-Replied e (start core config e) s (start-Started core config e s)
