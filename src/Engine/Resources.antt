-- ===== src/Engine/Resources.antt =====
-- The contexts and boxes that the sessions of engine_controller.go open, and who closes them.
use fastflow_client.Base.{ℕ, ◌≡◌, true, false, Option, none, some, List, [], ◌∷◌, All}
use fastflow_client.Base.Calls.{Call, returned, panicked, blocked}
use fastflow_client.Base.Text.{Text}
use fastflow_client.Engine.{Engine, Core, start, Run}

abbrev IsCalm {ℓ} : {A : Type ℓ} → Call A → Type 0
IsCalm (panicked v) = ⊥
IsCalm _ = Unit

-- A core that does not panic on the way up, nor in `Close`.
pub record IsCalmCore (core : Core) : Type 0 where
  pub parse : (n : ℕ) (config : Text) → IsCalm (core.parse n config)
  pub create : (n : ℕ) (options : core.Options) → IsCalm (core.create n options)
  pub start : (n : ℕ) → IsCalm (core.start n)
  pub close : (n : ℕ) → IsCalm (core.close n)

abbrev held : Option ℕ → List ℕ
held none = []
held (some n) = n ∷ []

module _ (core : Core) where
  -- Boxes whose `Close` never returns.
  abbrev AreHung : List ℕ → Type 0
  AreHung = All (λ n. core.close n ≡ blocked)

  -- The box of the instance is the latest, and the others are hung.
  abbrev AreBoxes : Option ℕ → List ℕ → Type 0
  AreBoxes none l = AreHung l
  AreBoxes (some n) [] = ⊥
  AreBoxes (some n) (m ∷ l) = (m ≡ n) × AreHung l

  -- The one open context is that of the instance. The open boxes are that of the instance and
  -- those whose `Close` never returns.
  pub record IsTidy (e : Engine) : Type 0 where
    pub contexts : e.live ≡ held e.cancel
    pub boxes : AreBoxes e.instance e.boxes
    pub tied : e.cancel ≡ e.instance
    pub alive : e.crashed ≡ false

  abbrev TidyRun : ℕ → Run → Type 0
  TidyRun n (e, returned r) = IsTidy e
  TidyRun n (e, panicked v) = IsTidy e
  TidyRun n (e, blocked) = e.locked ≡ true
