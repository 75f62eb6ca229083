-- ===== src/Daemon/Whole/Connections.antt =====
-- The open connections of windows_daemon/ipc.go and the work that each has left.
use fastflow_client.Base.{
  ℕ, ◌≡◌, ◌≢◌, refl, ◌⊎◌, inl, inr, true, false, Option, some, [], ◌∷◌, ◌==◌, arith, Bool-cases,
}
use fastflow_client.Base.Text.{Text}
use fastflow_client.Daemon.Work.{Work}
use fastflow_client.Daemon.Whole.{Connections, connection, set_work, hung_up}

pub connection_cases :
    (h k : ℕ) (p path : Text) (w work : Option Work) (cs : Connections)
    → connection h ((k, p, w) ∷ cs) ≡ some (path, work)
    → ((h == k ≡ true) × (p ≡ path) × (w ≡ work))
      ⊎ ((h == k ≡ false) × (connection h cs ≡ some (path, work)))
unfolding connection
connection_cases h k p path w work cs e = ground arith

pub connection-set_work :
    (h : ℕ) (path : Text) (old new : Option Work) (cs : Connections)
    → connection h cs ≡ some (path, old)
    → connection h (set_work h new cs) ≡ some (path, new)
unfolding connection set_work
connection-set_work h path old new [] e = cc
connection-set_work h path old new ((k, p, w) ∷ cs) e =
    elim (connection_cases h k p path w old cs e) [
      | inl (same, is, was) ↦ ground (arith, same, is)
      | inr (differs, e') ↦ ground (arith, differs, connection-set_work h path old new cs e')
    ]

pub connection-set_work_other :
    (g h : ℕ) (new : Option Work) (cs : Connections)
    → g ≢ h
    → connection g (set_work h new cs) ≡ connection g cs
unfolding connection set_work
connection-set_work_other g h new [] n = refl
connection-set_work_other g h new ((k, p, w) ∷ cs) n =
    ground (arith, connection-set_work_other g h new cs n)

pub set_work-set_work :
    (h : ℕ) (old new : Option Work) (cs : Connections)
    → set_work h new (set_work h old cs) ≡ set_work h new cs
unfolding set_work
set_work-set_work h old new [] = refl
set_work-set_work h old new ((k, p, w) ∷ cs) = ground (arith, set_work-set_work h old new cs)

pub set_work_same :
    (h : ℕ) (path : Text) (work : Option Work) (cs : Connections)
    → connection h cs ≡ some (path, work)
    → set_work h work cs ≡ cs
unfolding set_work
set_work_same h path work [] e = refl
set_work_same h path work ((k, p, w) ∷ cs) e = elim (connection_cases h k p path w work cs e) [
  | inl (same, is, was) ↦ rw (set_work, same, was)
  | inr (differs, e') ↦ rw (set_work, differs, set_work_same h path work cs e')
]

pub set_work_comm :
    (g h : ℕ) (x y : Option Work) (cs : Connections)
    → g ≢ h
    → set_work g x (set_work h y cs) ≡ set_work h y (set_work g x cs)
unfolding set_work
set_work_comm g h x y [] n = refl
set_work_comm g h x y ((k, p, w) ∷ cs) n = ground (arith, set_work_comm g h x y cs n)

-- A property of the verified image and the work of every connection.
abbrev pub AllOf : (Text → Option Work → Type 0) → Connections → Type 0
AllOf P [] = Unit
AllOf P ((h, path, work) ∷ cs) = P path work × AllOf P cs

module _ (P : Text → Option Work → Type 0) where
  pub connection-AllOf :
      (h : ℕ) (path : Text) (work : Option Work) (cs : Connections)
      → AllOf P cs
      → connection h cs ≡ some (path, work)
      → P path work
  unfolding connection
  connection-AllOf h path work [] a e = cc
  connection-AllOf h path work ((k, p, w) ∷ cs) a e =
      elim (connection_cases h k p path w work cs e) [
        | inl (same, is, was) ↦ rw (← is, ← was) a.0
        | inr (differs, later) ↦ connection-AllOf h path work cs a.1 later
      ]

  pub set_work-AllOf :
      (h : ℕ) (path : Text) (old new : Option Work) (cs : Connections)
      → AllOf P cs
      → connection h cs ≡ some (path, old)
      → P path new
      → AllOf P (set_work h new cs)
  unfolding set_work
  set_work-AllOf h path old new [] a e u = a
  set_work-AllOf h path old new ((k, p, w) ∷ cs) a e u =
      elim (connection_cases h k p path w old cs e) [
        | inl (same, is, was) ↦ rw (set_work, same) (rw is u, a.1)
        | inr (differs, later) ↦
            rw (set_work, differs) (a.0, set_work-AllOf h path old new cs a.1 later u)
      ]

  pub hung_up-AllOf : (h : ℕ) (cs : Connections) → AllOf P cs → AllOf P (hung_up h cs)
  unfolding hung_up
  hung_up-AllOf h [] a = a
  hung_up-AllOf h ((k, p, w) ∷ cs) a = elim (Bool-cases (h == k)) [
    | inl same ↦ rw (hung_up, same) a.1
    | inr differs ↦ rw (hung_up, differs) (a.0, hung_up-AllOf h cs a.1)
  ]
