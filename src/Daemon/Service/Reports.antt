-- ===== src/Daemon/Service/Reports.antt =====
-- What the service of windows_daemon/service.go reports to Windows, and when it stops the server.
use fastflow_client.Base.{
  ◌≡◌, refl, ap, ◌⊎◌, inl, inr, ◌≤◌, Bool, true, false, some, List, [], ◌∷◌, ◌++◌, ◌||◌,
  if◌then◌else◌,
}
use fastflow_client.Base.Calls.{Result, ok, err}
use fastflow_client.Base.Text.{Text, byte_len}
use fastflow_client.Daemon.Os.{Os}
use fastflow_client.Daemon.Acl.{Disk}
use fastflow_client.Daemon.Security.{load_or_create_token}
use fastflow_client.Daemon.Security.Token.{IsDisk, load_or_create_token_long}
use fastflow_client.Daemon.Service.{
  Report, start_pending, running, stop_pending, echoed, Command, interrogate, stop, shutdown,
  unexpected, serve, Execution, refused, start_server, run_server, execute,
}

abbrev pub asks_stop : Command → Bool
asks_stop stop = true
asks_stop shutdown = true
asks_stop _ = false

abbrev pub any_stop : List Command → Bool
any_stop [] = false
any_stop (c ∷ cs) = asks_stop c || any_stop cs

-- The requests that come before the first one to stop.
abbrev pub before_stop : List Command → List Command
before_stop [] = []
before_stop (c ∷ cs) = let rest = before_stop cs in if asks_stop c then [] else c ∷ rest

abbrev pub echoes : List Command → List Report
echoes [] = []
echoes (interrogate n ∷ cs) = echoed n ∷ echoes cs
echoes (_ ∷ cs) = echoes cs

abbrev pub farewell : Bool → List Report
farewell true = stop_pending ∷ []
farewell false = []

serve_lem :
    (cs : List Command)
    → serve cs ≡ (echoes (before_stop cs) ++ farewell (any_stop cs), any_stop cs)
unfolding serve
serve_lem [] = refl
serve_lem (interrogate n ∷ cs) = ap (λ r. (echoed n ∷ r.0, r.1)) (serve_lem cs)
serve_lem (stop ∷ cs) = refl
serve_lem (shutdown ∷ cs) = refl
serve_lem (unexpected n ∷ cs) = serve_lem cs

-- A run whose server has started with the secret `t`.
pub record Served (cs : List Command) (t : Text) (x : Execution) : Type 0 where
  pub token : x.token ≡ some t
  pub long : 32 ≤ byte_len t
  pub exit_code : x.exit_code ≡ 0
  pub stop_called : x.stop_called ≡ any_stop cs
  pub reports :
      x.reports ≡ start_pending ∷ running ∷ (echoes (before_stop cs) ++ farewell (any_stop cs))

module _ (os : Os) (disk : Disk os) (law : IsDisk os disk) where
  run_server-Served :
      (cs : List Command) (r : Result Text)
      → ((t : Text) → r ≡ ok t → 32 ≤ byte_len t)
      → (run_server os disk cs r ≡ refused) ⊎ ((t : Text) × Served cs t (run_server os disk cs r))
  run_server-Served cs (err m) long = inl refl
  run_server-Served cs (ok t) long = inr (
    t,
    record {
      token = refl;
      long = long t refl;
      exit_code = refl;
      stop_called = ap (λ r. r.1) (serve_lem cs);
      reports = ap (λ r. start_pending ∷ running ∷ r.0) (serve_lem cs);
    },
  )

  -- Where `rand.Read` fills its 32 bytes, a run of the service either reports that it is starting
  -- and exits with 1, without a server, or it has a server with a secret of at least 32 bytes and
  -- exits with 0. Then it reports that it runs, answers the interrogations that come before the
  -- first request to stop or shut down, and reports at the end that it stops, and calls the
  -- server's `stop`, exactly where there was such a request.
  pub execute-Served :
      (cs : List Command) (s : os.State)
      → (execute os disk cs s ≡ refused) ⊎ ((t : Text) × Served cs t (execute os disk cs s))
  unfolding execute start_server
  execute-Served cs s =
      run_server-Served cs (load_or_create_token os disk s).1
        (load_or_create_token_long os disk law s)
