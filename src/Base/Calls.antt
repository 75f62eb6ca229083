-- ===== src/Base/Calls.antt =====
-- Calls into code that is not the program's: the core, the reflected service, the Windows API.
-- An `error` is an `Option Text`, its message, with `none` for `nil`.
use fastflow_client.Base.Text.{Text}

-- The call returns, panics, or never comes back.
pub data Call {ℓ} (A : Type ℓ) : Type ℓ where
  returned : A → Call A
  panicked : Text → Call A
  blocked : Call A

-- A value, or an error.
pub data Result {ℓ} (A : Type ℓ) : Type ℓ where
  ok : A → Result A
  err : Text → Result A
