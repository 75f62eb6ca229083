-- ===== src/Engine/Operations.antt =====
-- Runs of the exported operations of engine_controller.go, one after the other.
use fastflow_client.Base.{◌≡◌, ◌⊎◌, inl, inr, true, none, some, List, [], ◌∷◌, arith}
use fastflow_client.Base.Calls.{returned, panicked, blocked}
use fastflow_client.Base.Int.{ℤ}
use fastflow_client.Base.Text.{Text}
use fastflow_client.Engine.{Engine, Core, set_tun_fd, start, stop, Run}
use fastflow_client.Engine.Lifecycle.{
  IsSettled, Started, start-Started, stop_lem, set_tun_fd-IsSettled,
}

-- The exported operations that change the engine, in the order in which they get the mutex.
pub data Op : Type 0 where
  start_op : Text → Op
  stop_op : Op
  fd_op : ℤ → Op

module _ (core : Core) where
  abbrev pub perform : Op → Engine → Engine
  perform (start_op config) e = (start core config e).0
  perform stop_op e = (stop core e).0
  perform (fd_op fd) e = set_tun_fd fd e

  unfoldable pub perform_all : List Op → Engine → Engine
  perform_all [] e = e
  perform_all (op ∷ ops) e = perform_all ops (perform op e)

  -- An operation cannot free the mutex that a call of the core holds for ever.
  pub perform_locked : (op : Op) (e : Engine) → e.locked ≡ true → (perform op e).locked ≡ true
  unfolding start stop set_tun_fd
  perform_locked (start_op config) e l = ground arith
  perform_locked stop_op e l = ground arith
  perform_locked (fd_op fd) e l = l

  Started-IsSettled :
      (e : Engine) (r : Run) → IsSettled e → Started e r → IsSettled r.0 ⊎ (r.0.locked ≡ true)
  Started-IsSettled e (e', returned none) s h = inl h.0
  Started-IsSettled e (e', returned (some m)) s (inl h) = inl (rw h.1 s)
  Started-IsSettled e (e', returned (some m)) s (inr h) = inl h.1.settled
  Started-IsSettled e (e', panicked v) s h = absurd h
  Started-IsSettled e (e', blocked) s h = inr h

  pub perform-IsSettled :
      (op : Op) (e : Engine)
      → IsSettled e
      → IsSettled (perform op e) ⊎ ((perform op e).locked ≡ true)
  perform-IsSettled (start_op config) e s =
      Started-IsSettled e (start core config e) s (start-Started core config e s)
  perform-IsSettled stop_op e s = inl (stop_lem core e s).1
  perform-IsSettled (fd_op fd) e s = inl (set_tun_fd-IsSettled core fd e s)

  pub perform_all_locked :
      (ops : List Op) (e : Engine) → e.locked ≡ true → (perform_all ops e).locked ≡ true
  unfolding perform_all
  perform_all_locked [] e l = l
  perform_all_locked (op ∷ ops) e l = perform_all_locked ops (perform op e) (perform_locked op e l)

  -- After any operations on a settled engine, the engine is settled, or a call of the core that
  -- never came back still holds the mutex.
  pub perform_all-IsSettled :
      (ops : List Op) (e : Engine)
      → IsSettled e
      → IsSettled (perform_all ops e) ⊎ ((perform_all ops e).locked ≡ true)
  unfolding perform_all
  perform_all-IsSettled [] e s = inl s
  perform_all-IsSettled (op ∷ ops) e s = elim (perform-IsSettled op e s) [
    | inl s' ↦ perform_all-IsSettled ops (perform op e) s'
    | inr l ↦ inr (perform_all_locked ops (perform op e) l)
  ]
