-- ===== src/Tests/EngineRuns.antt =====
-- The engine over a core that starts every configuration but the empty one, and over one that
-- panics while it starts.
use fastflow_client.Base.{
  ℕ, ◌≡◌, ◌↔◌, refl, ◌⊎◌, true, none, some, List, [], ◌∷◌, length, ◌==◌, if◌then◌else◌,
}
use fastflow_client.Base.Calls.{returned, panicked, blocked, ok, err}
use fastflow_client.Base.Int.{pos, wrap32}
use fastflow_client.Base.Text.{codes}
use fastflow_client.Engine.{
  Core, Engine, new_engine, start, stop, get_status, get_last_error, start_reply,
}
use fastflow_client.Traffic.Reader.{new_stats_reader}
use fastflow_client.Engine.Lifecycle.{IsSettled, Started, start-Started, new_engine-IsSettled}
use fastflow_client.Engine.Success.{CoreSucceeds, start_succeeds_iff}
use fastflow_client.Engine.Operations.{
  Op, start_op, stop_op, fd_op, perform_all, perform_all-IsSettled,
}
use fastflow_client.Engine.Statuses.{IsTraced, perform_all-IsTraced}
use fastflow_client.Engine.Leaks.{IsLost, perform_all-IsLost-start}
use fastflow_client.Engine.Exports.{Replied, start_engine, start_engine-Replied}
use fastflow_client.Engine.Tunnel.{open_tun_of, open_tun_of-perform_all}

abbrev good : Core
good = record {
  Options = ℕ;
  parse = λ n config. if length config == 0 then returned (err (codes "EOF")) else returned (ok 1);
  create = λ n options. returned (ok tt);
  start = λ n. returned (ok tt);
  close = λ n. returned tt;
  server = λ n. returned none;
  stack = λ n. [];
}

abbrev panicky : Core
panicky = record {
  Options = ℕ;
  parse = λ n config. returned (ok 1);
  create = λ n options. returned (ok tt);
  start = λ n. panicked (codes "nil map");
  close = λ n. returned tt;
  server = λ n. returned none;
  stack = λ n. [];
}

abbrev session : List Op
session = start_op (codes "{}") ∷ start_op (codes "{}") ∷ fd_op (pos 7) ∷ stop_op ∷ start_op [] ∷ []

stops_stopped : get_status (stop good (start good (codes "{}") new_engine).0).0 ≡ codes "stopped"
unfolding codes get_status new_engine start stop new_stats_reader
stops_stopped = refl

tells_failure :
    start_reply (some (get_last_error (start good [] new_engine).0))
    ≡ codes "ERROR: parse config: EOF"
unfolding codes get_last_error new_engine start start_reply new_stats_reader
tells_failure = refl

start-Started_example : Started new_engine (start good (codes "{}") new_engine)
start-Started_example = start-Started good (codes "{}") new_engine new_engine-IsSettled

start_succeeds_iff_example :
    ((start good (codes "{}") new_engine).1 ≡ returned none)
    ↔ ((new_engine.instance ≡ none) × CoreSucceeds good new_engine.sessions (codes "{}"))
start_succeeds_iff_example = start_succeeds_iff good (codes "{}") new_engine new_engine-IsSettled

-- Its `Close` never returns.
abbrev stuck : Core
stuck = record good { close = λ n. blocked }

abbrev up : Engine
up = (start stuck (codes "{}") new_engine).0

-- The box is open afterwards.
stays_open : (get_status (stop stuck up).0 ≡ codes "stopped") × ((stop stuck up).0.boxes ≡ 0 ∷ [])
unfolding new_engine codes start stop new_stats_reader get_status
stays_open = (refl, refl)

perform_all-IsSettled_example :
    IsSettled (perform_all good session new_engine)
    ⊎ ((perform_all good session new_engine).locked ≡ true)
perform_all-IsSettled_example = perform_all-IsSettled good session new_engine new_engine-IsSettled

new_engine-IsTraced : IsTraced new_engine
unfolding new_engine
new_engine-IsTraced = (refl, tt)

perform_all-IsTraced_example : IsTraced (perform_all good session new_engine)
perform_all-IsTraced_example =
    perform_all-IsTraced good session new_engine new_engine-IsSettled new_engine-IsTraced

perform_all-IsLost-start_example :
    IsLost 0 (perform_all panicky session (start panicky (codes "{}") new_engine).0)
unfolding new_engine
perform_all-IsLost-start_example =
    perform_all-IsLost-start panicky session (codes "{}") new_engine 1 (codes "nil map")
      new_engine-IsSettled refl refl refl refl

start_engine-Replied_example : Replied new_engine (start_engine good (codes "{}") new_engine)
start_engine-Replied_example =
    start_engine-Replied good (codes "{}") new_engine new_engine-IsSettled

open_tun_of-perform_all_example :
    open_tun_of (λ fd. ok fd) (perform_all good session new_engine) ≡ ok (pos 7)
unfolding codes wrap32
open_tun_of-perform_all_example = open_tun_of-perform_all good session (λ fd. ok fd)
