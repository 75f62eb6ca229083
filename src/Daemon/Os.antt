-- ===== src/Daemon/Os.antt =====
-- windows_daemon: what its files use of Windows and of Go's `os`, in one interface. Every call
-- threads the machine's state, and an error is its message.
use fastflow_client.Base.{ℕ, Option, none, some, List, [], ◌∷◌, length, ◌==◌, if◌then◌else◌}
use fastflow_client.Base.Text.{Text, codes}

pub record Os : Type 1 where
  pub State : Type 0
  pub getenv : Text → Text  -- `os.Getenv`, empty if the variable is not set
  pub join : List Text → Text  -- `filepath.Join` of Windows
  pub quote : Text → Text  -- `%q`
  pub fold : ℕ → ℕ  -- one code point for each class of `unicode.SimpleFold`
  pub run : Text → List Text → State → State × Option Text  -- `exec.Command(…).Run()`

-- An action that returns an error, and the rest of a function behind `if err != nil { return err }`.
abbrev pub Action : Os → Type 0
Action os = os.State → os.State × Option Text

abbrev pub and_then : (os : Os) → Action os → Action os → Action os
and_then os first next s = elim (first s).1 [
  | none ↦ next (first s).0
  | some message ↦ ((first s).0, some message)
]

-- An action whose error is dropped, `_ = f()`.
abbrev pub ignoring : (os : Os) → Action os → Action os
ignoring os action s = ((action s).0, none)

module _ (os : Os) where
  abbrev pub or_default : Text → Text → Text
  or_default value default = if length value == 0 then default else value

  -- `system32` of firewall.go
  unfoldable pub system32 : Text → Text
  system32 name = os.join (
      or_default (os.getenv (codes "SystemRoot")) (codes "C:\\Windows")
      ∷ codes "System32"
      ∷ name
      ∷ [])
