-- ===== src/Traffic.antt =====
-- data/vpn_engine/traffic.go: the samples, the poller's loop and the totals that it reads.
-- `float64` is the parameter `Float`, an `int64` an integer that `wrap64` keeps in range, and a
-- `time.Time` its nanoseconds. The reader of the core's counters is in `Traffic.Reader`.
pub mod Reader
pub mod Rates
pub mod Totals
use fastflow_client.Base.{ℕ, Bool, true, false, not, ◌||◌, Option, none, some, List, [], ◌∷◌, ◌++◌}
use fastflow_client.Base.{if◌then◌else◌}
use fastflow_client.Base.Int.{ℤ, pos, ◌+ℤ◌, ◌-ℤ◌, leb_ℤ, wrap64}
use fastflow_client.Base.Text.{Text, codes}

-- One direction of the meter: bytes per second, and the bytes of the session.
pub record Sample : Type 0 where
  pub rate : ℤ
  pub total : ℤ

pub record Snapshot : Type 0 where
  pub up : Sample
  pub down : Sample
  pub at : ℕ

abbrev pub no_sample : Sample
no_sample = record { rate = pos 0; total = pos 0 }

-- `readTraffic`: two zero samples before the first snapshot.
unfoldable pub read_traffic : Option Snapshot → Sample × Sample
read_traffic none = (no_sample, no_sample)
read_traffic (some snap) = (snap.up, snap.down)

-- The operations on `float64` that the poller uses.
pub record Float : Type 1 where
  pub F : Type 0
  pub of_int : ℤ → F
  pub div : F → F → F
  pub trunc : F → ℤ  -- `int64(x)`
  pub le_zero : F → Bool
  pub seconds : ℤ → F  -- `Duration.Seconds()`, of nanoseconds

abbrev pub outbound_tags : List Text
outbound_tags = codes "proxy" ∷ codes "direct" ∷ []

-- `statsCounterName`
unfoldable pub counter_name : Text → Text → Text
counter_name tag direction = codes "outbound>>>" ++ (tag ++ (codes ">>>traffic>>>" ++ direction))

-- The loop of `readTotals`, over the tags that are left.
unfoldable pub sum_counters : (Text → ℤ) → List Text → ℤ → ℤ → ℤ × ℤ
unfolding counter_name
sum_counters read [] up down = (up, down)
sum_counters read (tag ∷ tags) up down =
    sum_counters read tags (wrap64 (up +ℤ read (counter_name tag (codes "uplink"))))
      (wrap64 (down +ℤ read (counter_name tag (codes "downlink"))))

unfoldable pub read_totals : (Text → ℤ) → ℤ × ℤ
unfolding sum_counters
read_totals read = sum_counters read outbound_tags (pos 0) (pos 0)

-- What one round of the poller meets: the ticker's time, and the counters then.
pub record Tick : Type 0 where
  pub now : ℕ
  pub read : Text → ℤ

-- The poller's variables: `last`, where `haveLast` holds.
abbrev pub Poller : Type 0
Poller = Option Snapshot

module _ (fl : Float) where
  unfoldable pub per_second : ℤ → fl.F → ℤ
  per_second delta dt =
      if leb_ℤ delta (pos 0) || fl.le_zero dt then pos 0 else fl.trunc (fl.div (fl.of_int delta) dt)

  -- The rate that the loop stores for one direction.
  unfoldable pub rate_since : Option (ℤ × ℕ) → ℤ → ℕ → ℤ
  unfolding per_second
  rate_since none total now = pos 0
  rate_since (some (before, at)) total now =
      per_second (wrap64 (total -ℤ before)) (fl.seconds (pos now -ℤ pos at))

  abbrev up_before : Poller → Option (ℤ × ℕ)
  up_before none = none
  up_before (some last) = some (last.up.total, last.at)

  abbrev down_before : Poller → Option (ℤ × ℕ)
  down_before none = none
  down_before (some last) = some (last.down.total, last.at)

  -- The `ticker.C` case of `pollTraffic`: the snapshot that becomes `last` and is published.
  unfoldable pub poll_tick : Poller → Tick → Snapshot
  unfolding rate_since
  poll_tick p t =
      let (up, down) = read_totals t.read in
      record {
        up = record { rate = rate_since (up_before p) up t.now; total = up };
        down = record { rate = rate_since (down_before p) down t.now; total = down };
        at = t.now;
      }

  -- The snapshots that the loop publishes, the first one first.
  unfoldable pub poll_ticks : Poller → List Tick → List Snapshot
  poll_ticks p [] = []
  poll_ticks p (t ∷ ts) = let snap = poll_tick p t in snap ∷ poll_ticks (some snap) ts
