-- ===== src/Engine/Meter.antt =====
-- The traffic meter: the goroutines of `pollTraffic` in traffic.go beside the operations of
-- engine_controller.go. A turn is one operation under the mutex, or one round of one poller's loop.
use fastflow_client.Base.{
  ℕ, ◌≡◌, refl, ◌∙◌, ◌⊎◌, inl, inr, Option, none, some, List, [], ◌∷◌, arith, length, ◌==◌,
  if◌then◌else◌, Option-cases,
}
use mathlib.Core.Path.{subst}
use fastflow_client.Engine.{Engine, Core, start, stop, set_tun_fd}
use fastflow_client.Engine.Leaks.{has}
use fastflow_client.Engine.Operations.{Op, start_op, stop_op, fd_op, perform}
use fastflow_client.Traffic.{Snapshot, Float, Tick, Poller, poll_tick}

-- The engine, and the pollers that have not returned, each with its session and its `last`.
pub record Meter : Type 0 where
  pub engine : Engine
  pub polling : List (ℕ × Poller)

pub data Turn : Type 0 where
  operate : Op → Turn
  tick : ℕ → Tick → Turn
  done : ℕ → Turn

abbrev pub last_of : ℕ → List (ℕ × Poller) → Option Poller
last_of n [] = none
last_of n ((k, p) ∷ l) = let rest = last_of n l in if k == n then some p else rest

abbrev pub with_last : ℕ → Poller → List (ℕ × Poller) → List (ℕ × Poller)
with_last n q [] = []
with_last n q ((k, p) ∷ l) =
    let rest = with_last n q l in if k == n then (k, q) ∷ l else (k, p) ∷ rest

abbrev pub without : ℕ → List (ℕ × Poller) → List (ℕ × Poller)
without n [] = []
without n ((k, p) ∷ l) = let rest = without n l in if k == n then rest else (k, p) ∷ rest

-- The goroutine that an operation has started, if it has started one.
abbrev joined : List ℕ → List ℕ → List (ℕ × Poller) → List (ℕ × Poller)
joined before [] l = l
joined before (n ∷ after) l = if length (n ∷ after) == length before then l else (n, none) ∷ l

module _ (core : Core) (fl : Float) where
  abbrev operated : Op → Meter → Meter
  operated op m =
      let e = perform core op m.engine in
      record { engine = e; polling = joined m.engine.pollers e.pollers m.polling }

  -- The `ticker.C` case. It may win over a context that is done: `select` takes any ready case.
  abbrev ticked : ℕ → Tick → Poller → Meter → Meter
  ticked n t p m =
      let snap = poll_tick fl p t in
      record {
        engine = record m.engine { traffic = some snap };
        polling = with_last n (some snap) m.polling;
      }

  -- The `ctx.Done()` case.
  abbrev finished : ℕ → Meter → Meter
  finished n m = record {
    engine = record m.engine { traffic = none };
    polling = without n m.polling;
  }

  -- A turn of a goroutine that does not run, or that has nothing to do, is `none`.
  unfoldable pub turn : Turn → Meter → Option Meter
  turn (operate op) m = some (operated op m)
  turn (tick n t) m = elim (last_of n m.polling) [ none ↦ none | some p ↦ some (ticked n t p m) ]
  turn (done n) m = elim (last_of n m.polling) [
    | none ↦ none
    | some p ↦ if has n m.engine.live then none else some (finished n m)
  ]

  unfoldable pub turns : List Turn → Meter → Option Meter
  turns [] m = some m
  turns (a ∷ as') m = elim (turn a m) [ none ↦ none | some m' ↦ turns as' m' ]

  -- One of the pollers has the snapshot as its last one.
  abbrev AnyLast : Snapshot → List (ℕ × Poller) → Type 0
  AnyLast s [] = ⊥
  AnyLast s ((n, p) ∷ l) = (p ≡ some s) ⊎ AnyLast s l

  -- What `GetStats` reads is nothing, or the last snapshot of a poller that has not returned.
  abbrev pub IsCurrent : Meter → Type 0
  IsCurrent m =
      (m.engine.traffic ≡ none)
      ⊎ ((s : Snapshot) × (m.engine.traffic ≡ some s) × AnyLast s m.polling)

  perform-traffic : (op : Op) (e : Engine) → (perform core op e).traffic ≡ e.traffic
  unfolding start stop set_tun_fd
  perform-traffic (start_op config) e = ground arith
  perform-traffic stop_op e = ground arith
  perform-traffic (fd_op fd) e = refl

  joined-AnyLast :
      (s : Snapshot) (before after : List ℕ) (l : List (ℕ × Poller))
      → AnyLast s l
      → AnyLast s (joined before after l)
  joined-AnyLast s before [] l h = h
  joined-AnyLast s before (n ∷ after) l h = ground arith

  with_last-AnyLast :
      (n : ℕ) (s : Snapshot) (l : List (ℕ × Poller)) {p : Poller}
      → last_of n l ≡ some p
      → AnyLast s (with_last n (some s) l)
  with_last-AnyLast n s [] h = cc
  with_last-AnyLast n s ((k, q) ∷ l) {p} h = ground (arith, with_last-AnyLast n s l {p = p})

  operated-IsCurrent : (op : Op) (m : Meter) → IsCurrent m → IsCurrent (operated op m)
  operated-IsCurrent op m (inl h) = inl (perform-traffic op m.engine ∙ h)
  operated-IsCurrent op m (inr (s, h, l)) = inr (
    s,
    perform-traffic op m.engine ∙ h,
    joined-AnyLast s m.engine.pollers (perform core op m.engine).pollers m.polling l,
  )

  ticked-IsCurrent :
      (n : ℕ) (t : Tick) (p : Poller) (m : Meter)
      → last_of n m.polling ≡ some p
      → IsCurrent (ticked n t p m)
  ticked-IsCurrent n t p m h =
      inr (poll_tick fl p t, refl, with_last-AnyLast n (poll_tick fl p t) m.polling {p = p} h)

  turn-IsCurrent : (a : Turn) (m m' : Meter) → IsCurrent m → turn a m ≡ some m' → IsCurrent m'
  unfolding turn
  turn-IsCurrent (operate op) m m' c e =
      subst IsCurrent {x = operated op m} {y = m'} (ground arith) (operated-IsCurrent op m c)
  turn-IsCurrent (tick n t) m m' c e = elim (Option-cases (last_of n m.polling)) [
    | inl gone ↦ absurd (ground arith)
    | inr (p, h) ↦
        subst IsCurrent {x = ticked n t p m} {y = m'} (ground arith) (ticked-IsCurrent n t p m h)
  ]
  turn-IsCurrent (done n) m m' c e = inl (ground arith)

  -- However the operations of the engine and the rounds of its pollers follow each other, from a
  -- meter where this holds: what `GetStats` reads is nothing, or the last snapshot of a poller
  -- that has not returned.
  pub turns-IsCurrent :
      (as' : List Turn) (m m' : Meter) → IsCurrent m → turns as' m ≡ some m' → IsCurrent m'
  unfolding turns
  turns-IsCurrent [] m m' c e = subst IsCurrent {x = m} {y = m'} (ground arith) c
  turns-IsCurrent (a ∷ as') m m' c e = elim (Option-cases (turn a m)) [
    | inl n ↦ absurd (ground arith)
    | inr (u, n) ↦ turns-IsCurrent as' u m' (turn-IsCurrent a m u c n) (ground arith)
  ]
