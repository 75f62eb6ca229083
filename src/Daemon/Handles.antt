-- ===== src/Daemon/Handles.antt =====
-- windows_daemon: the handles that its functions take of Windows, and `defer`, which gives them
-- back.
use fastflow_client.Base.{ℕ, ◌+◌, ◌≤◌, ◌≡◌, ◌&&◌, List, [], ◌∷◌, arith, ◌==◌, if◌then◌else◌}

pub data Kind : Type 0 where
  trust message store certificate process manager service : Kind

abbrev pub tag : Kind → ℕ
tag trust = 0
tag message = 1
tag store = 2
tag certificate = 3
tag process = 4
tag manager = 5
tag service = 6

abbrev pub Resource : Type 0
Resource = Kind × ℕ

-- 1 where the two are the same resource.
unfoldable pub one : Resource → Resource → ℕ
one (a, m) (b, n) = if tag a == tag b && m == n then 1 else 0

unfoldable pub count : Resource → List Resource → ℕ
unfolding one
count k [] = 0
count k (r ∷ rs) = one k r + count k rs

-- A call that `defer` has put off to the end of a function, and the result of the rest of it.
abbrev pub deferring : {State A : Type 0} → (State → State) → State × A → State × A
deferring f (s, a) = (f s, a)

-- How often each resource is held.
module _ {State : Type 0} (held : State → Resource → ℕ) where
  -- In the second state, the given resources are held beside those of the first.
  abbrev pub Owing : List Resource → State → State → Type 0
  Owing rs s t = (k : Resource) → held t k ≡ held s k + count k rs

  abbrev pub Keeps : State → State → Type 0
  Keeps s t = (k : Resource) → held t k ≡ held s k

  abbrev pub Takes : Resource → State → State → Type 0
  Takes r s t = (k : Resource) → held t k ≡ held s k + one k r

  -- A resource that is held is given back.
  abbrev pub Gives : Resource → State → State → Type 0
  Gives r s t = 1 ≤ held s r → (k : Resource) → held t k + one k r ≡ held s k

  one_refl : (r : Resource) → one r r ≡ 1
  unfolding one
  one_refl (a, m) = ground arith

  pub Owing-start : (s : State) → Owing [] s s
  unfolding count
  Owing-start s k = ground arith

  pub Owing-none : (s t : State) → Owing [] s t → Keeps s t
  unfolding count
  Owing-none s t h k = ground (arith, h k)

  pub Owing-keep : (rs : List Resource) (s t u : State) → Owing rs s t → Keeps t u → Owing rs s u
  Owing-keep rs s t u h keep k = ground (arith, h k, keep k)

  pub Owing-take :
      (r : Resource) (rs : List Resource) (s t u : State)
      → Owing rs s t
      → Takes r t u
      → Owing (r ∷ rs) s u
  unfolding count
  Owing-take r rs s t u h take k = ground (arith, h k, take k)

  pub Owing-give :
      (r : Resource) (rs : List Resource) (s t u : State)
      → Owing (r ∷ rs) s t
      → Gives r t u
      → Owing rs s u
  unfolding count
  Owing-give r rs s t u h give k = ground (arith, h k, give (ground (arith, h r, one_refl r)) k)
