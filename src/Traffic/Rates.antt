-- ===== src/Traffic/Rates.antt =====
-- What the poller of data/vpn_engine/traffic.go publishes, over any sequence of its rounds.
use fastflow_client.Base.{
  ap, ◌⊎◌, inl, inr, ℕ, ◌-◌, ◌*◌, ◌^◌, ◌≤◌, ◌<◌, ◌≡◌, refl, Option, none, some, List, [], ◌∷◌,
  arith,
}
use fastflow_client.Base.Int.{
  ℤ, pos, negsuc, pos_part, ◌-ℤ◌, ◌≤ℤ◌, leb_ℤ, wrap64, FitsInt64, wrap64-fits, -ℤ_parts,
}
use fastflow_client.Traffic.{
  Snapshot, Float, Tick, read_totals, per_second, rate_since, poll_tick, poll_ticks,
}

-- What the documented conversions of `float64` give, where the quotient is far from the bounds of
-- `int64`: a duration has the sign of its nanoseconds, and a positive delta over a positive time
-- truncates to no negative number.
pub record IsFloat (fl : Float) : Type 0 where
  pub le_zero-seconds : (d : ℤ) → fl.le_zero (fl.seconds d) ≡ leb_ℤ d (pos 0)
  pub quotient_nonneg :
      (delta ns : ℕ)
      → delta * 10 ^ 9 < 2 ^ 62 * ns
      → pos 0 ≤ℤ fl.trunc (fl.div (fl.of_int (pos delta)) (fl.seconds (pos ns)))

module _ (fl : Float) where
  -- The rate of one direction, from the readings of two rounds.
  abbrev rate_between : ℤ → ℕ → ℤ → ℕ → ℤ
  rate_between before at total now =
      per_second fl (wrap64 (total -ℤ before)) (fl.seconds (pos now -ℤ pos at))

  -- A snapshot as a function of the round and of the one before it.
  abbrev pub snapshot_of : Option Tick → Tick → Snapshot
  snapshot_of none t = record {
    up = record { rate = pos 0; total = (read_totals t.read).0 };
    down = record { rate = pos 0; total = (read_totals t.read).1 };
    at = t.now;
  }
  snapshot_of (some b) t = record {
    up = record {
      rate = rate_between (read_totals b.read).0 b.now (read_totals t.read).0 t.now;
      total = (read_totals t.read).0;
    };
    down = record {
      rate = rate_between (read_totals b.read).1 b.now (read_totals t.read).1 t.now;
      total = (read_totals t.read).1;
    };
    at = t.now;
  }

  abbrev pub snapshots : Option Tick → List Tick → List Snapshot
  snapshots b [] = []
  snapshots b (t ∷ ts) = snapshot_of b t ∷ snapshots (some t) ts

  poll_ticks_after :
      (b t : Tick) (p : Option Tick) (ts : List Tick)
      → poll_ticks fl (some (snapshot_of p b)) ts ≡ snapshots (some b) ts
  unfolding poll_ticks poll_tick
  poll_ticks_after b t p [] = refl
  poll_ticks_after b t none (u ∷ ts) =
      ap (λ l. snapshot_of (some b) u ∷ l) (poll_ticks_after u t (some b) ts)
  poll_ticks_after b t (some q) (u ∷ ts) =
      ap (λ l. snapshot_of (some b) u ∷ l) (poll_ticks_after u t (some b) ts)

  -- The loop publishes one snapshot for each round, which depends on that round's readings and on
  -- the round before it alone; the first one has both rates 0.
  pub poll_ticks-eq-snapshots : (ts : List Tick) → poll_ticks fl none ts ≡ snapshots none ts
  unfolding poll_ticks poll_tick
  poll_ticks-eq-snapshots [] = refl
  poll_ticks-eq-snapshots (t ∷ ts) = ap (λ l. snapshot_of none t ∷ l) (poll_ticks_after t t none ts)

  per_second-eq-zero :
      (d z : ℤ) → IsFloat fl → (d ≤ℤ pos 0) ⊎ (z ≤ℤ pos 0) → per_second fl d (fl.seconds z) ≡ pos 0
  unfolding per_second
  per_second-eq-zero d z law h = ground (arith, law.le_zero-seconds z)

  per_second_nonneg :
      (d : ℤ) (ns : ℕ)
      → IsFloat fl
      → pos_part d * 10 ^ 9 < 2 ^ 62 * ns
      → pos 0 ≤ℤ per_second fl d (fl.seconds (pos ns))
  unfolding per_second
  per_second_nonneg (pos n) ns law h = ground (arith, law.quotient_nonneg n ns h)
  per_second_nonneg (negsuc n) ns law h = ground arith

  elapsed_pos : (at now : ℕ) → at < now → pos now -ℤ pos at ≡ pos (now - at)
  unfolding ◌-ℤ◌
  elapsed_pos at now h = ground arith

  -- With the documented conversions of `float64`, a counter that has not grown, or a clock that
  -- has not moved on, gives the rate 0, where the difference of the readings fits an `int64`.
  pub rate_since_reset :
      (before total : ℤ) (at now : ℕ)
      → IsFloat fl
      → FitsInt64 (total -ℤ before)
      → (total ≤ℤ before) ⊎ (now ≤ at)
      → rate_since fl (some (before, at)) total now ≡ pos 0
  unfolding rate_since
  rate_since_reset before total at now law f h = rw (wrap64-fits (total -ℤ before) f) (
      per_second-eq-zero (total -ℤ before) (pos now -ℤ pos at) law
        (omega (arith, -ℤ_parts total before, -ℤ_parts (pos now) (pos at))))

  -- With the documented conversions of `float64`, no rate is negative, where the difference of the
  -- readings fits an `int64` and either the clock has not moved on or the rate lies below 2 ^ 62
  -- bytes per second.
  pub rate_since_nonneg :
      (before total : ℤ) (at now : ℕ)
      → IsFloat fl
      → FitsInt64 (total -ℤ before)
      → (now ≤ at) ⊎ (pos_part (total -ℤ before) * 10 ^ 9 < 2 ^ 62 * (now - at))
      → pos 0 ≤ℤ rate_since fl (some (before, at)) total now
  unfolding rate_since
  rate_since_nonneg before total at now law f (inl h) =
      rw (rate_since_reset before total at now law f (inr h)) (omega arith)
  rate_since_nonneg before total at now law f (inr h) =
      rw (wrap64-fits (total -ℤ before) f, elapsed_pos at now (grind arith))
        (per_second_nonneg (total -ℤ before) (now - at) law h)
