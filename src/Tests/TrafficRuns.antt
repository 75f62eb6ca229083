-- ===== src/Tests/TrafficRuns.antt =====
-- The poller over exact quotients, and a reader over a small response.
use fastflow_client.Base.{
  ℕ, ◌*◌, ◌/◌, ◌^◌, ◌≡◌, refl, ap, inl, true, Option, none, some, List, [], ◌∷◌, arith,
}
use fastflow_client.Base.Calls.{returned, ok}
use fastflow_client.Base.Int.{ℤ, pos, pos_part, leb_ℤ, ◌+ℤ◌, ◌-ℤ◌, wrap64}
use fastflow_client.Base.Text.{codes, show_ℤ, text_eq}
use fastflow_client.Traffic.{
  Float, Tick, poll_tick, read_totals, read_traffic, poll_ticks, rate_since,
}
use fastflow_client.Traffic.Rates.{IsFloat, snapshots, poll_ticks-eq-snapshots}
use fastflow_client.Traffic.Reader.{
  Value, Method, ptr, struct, int64, end, field, named, new_stats_reader, read, field_by_name,
}
use fastflow_client.Engine.{Core, new_engine, stats_json, start, stop, set_status, force_cleanup}
use fastflow_client.Engine.Operations.{start_op, stop_op}
use fastflow_client.Engine.Meter.{
  Meter, Turn, operate, tick, done, turn, turns, IsCurrent, turns-IsCurrent,
}
use fastflow_client.Traffic.Totals.{Carries, read_sound}

abbrev exact : Float
exact = record {
  F = ℤ × ℕ;
  of_int = λ z. (z, 1);
  div = λ (a, b) (c, d). (pos (pos_part a * d), b * pos_part c);
  trunc = λ (a, b). pos (pos_part a / b);
  le_zero = λ (a, b). leb_ℤ a (pos 0);
  seconds = λ ns. (ns, 10 ^ 9);
}

exact-IsFloat : IsFloat exact
exact-IsFloat = record { le_zero-seconds = λ d. refl; quotient_nonneg = λ delta ns h. omega arith }

-- Two rounds, one second apart, with 300 bytes more of each counter in the second.
abbrev rounds : List Tick
rounds =
    record { now = 5_000_000_000; read = λ name. pos 100 }
    ∷ record { now = 6_000_000_000; read = λ name. pos 400 }
    ∷ []

second_rate : rate_since exact (some (pos 200, 5_000_000_000)) (pos 800) 6_000_000_000 ≡ pos 600
unfolding rate_since wrap64 ◌-ℤ◌
second_rate = refl

poll_ticks-eq-snapshots_example : poll_ticks exact none rounds ≡ snapshots exact none rounds
poll_ticks-eq-snapshots_example = poll_ticks-eq-snapshots exact rounds

abbrev response : Value
response =
    ptr (
      struct (field (codes "Stat") (ptr (struct (field (codes "Value") (int64 (pos 42)) end))) end))

abbrev get_stats : Method
get_stats = record {
  num_in = 2;
  num_out = 2;
  in_1_is_ptr = true;
  request = named;
  call = λ name. returned (response, true);
}

reads_42 : read get_stats (codes "x") ≡ returned (pos 42)
unfolding read codes text_eq field_by_name
reads_42 = refl

read_sound_example :
    (resp : Value) × (get_stats.request ≡ named)
    × (get_stats.call (codes "x") ≡ returned (resp, true))
    × Carries (pos 42) resp
read_sound_example =
    read_sound get_stats (codes "x") (pos 42) reads_42 (λ e. omega (arith, ap pos_part e))

-- A core that is measured.
abbrev measured : Core
measured = record {
  Options = ℕ;
  parse = λ n config. returned (ok 1);
  create = λ n options. returned (ok tt);
  start = λ n. returned (ok tt);
  close = λ n. returned tt;
  server = λ n.
      returned (some (record { stats_service = some (record { get_stats = some get_stats }) }));
  stack = λ n. [];
}

abbrev unmetered : Meter
unmetered = record { engine = new_engine; polling = [] }

abbrev or_unmetered : Option Meter → Meter
or_unmetered none = unmetered
or_unmetered (some m) = m

abbrev second : Tick
second = record { now = 6_000_000_000; read = λ name. pos 400 }

-- The poller of a stopped session notices late, when the next session already has one.
abbrev restart : List Turn
restart =
    operate (start_op [])
    ∷ tick 0 second
    ∷ operate stop_op
    ∷ operate (start_op [])
    ∷ tick 1 second
    ∷ []

abbrev restarted : Meter
restarted = or_unmetered (turns measured exact restart unmetered)

abbrev cleared : Meter
cleared = or_unmetered (turn measured exact (done 0) restarted)

restarts : turns measured exact restart unmetered ≡ some restarted
unfolding turns turn start stop new_engine new_stats_reader set_status force_cleanup
restarts = refl

shows_rate :
    stats_json restarted.engine
    ≡ codes "{\"uplink\":0,\"downlink\":0,\"uplinkTotal\":800,\"downlinkTotal\":800}"
unfolding turns turn start stop new_engine new_stats_reader set_status force_cleanup poll_tick
    rate_since read_totals wrap64 ◌+ℤ◌ ◌-ℤ◌ stats_json read_traffic codes show_ℤ
shows_rate = refl

-- The new session runs, and the meter shows nothing.
shows_nothing : (cleared.engine.traffic ≡ none) × (cleared.engine.instance ≡ some 1)
unfolding turns turn start stop new_engine new_stats_reader set_status force_cleanup
shows_nothing = (refl, refl)

turns-IsCurrent_example : IsCurrent measured exact restarted
unfolding new_engine
turns-IsCurrent_example =
    turns-IsCurrent measured exact restart unmetered restarted (inl refl) restarts
