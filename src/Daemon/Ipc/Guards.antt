-- ===== src/Daemon/Ipc/Guards.antt =====
-- What a client of windows_daemon/ipc.go can bring about.
use fastflow_client.Base.{
  ◌≡◌, refl, inl, inr, Bool, true, false, ◌&&◌, Option, none, some, List, [], ◌∷◌, arith,
  if◌then◌else◌, map, Bool-cases,
}
use mathlib.Core.Path.{ap₂}
use fastflow_client.Base.Int.{ℤ, pos}
use fastflow_client.Base.Text.{Text, codes, text_eq}
use fastflow_client.Daemon.Os.{Os}
use fastflow_client.Daemon.Ipc.{
  Request, Method, ping, unknown, kill_switch, add_route_method, remove_route_method, method_of,
  bool_param, string_param, handle_method, dispatch, handle_line, handle,
}

-- The methods that reach the firewall or the route table.
abbrev pub is_privileged : Method → Bool
is_privileged ping = false
is_privileged unknown = false
is_privileged _ = true

-- A line that shows the token and names a privileged method.
abbrev pub is_effective : Text → Option Request → Bool
is_effective token none = false
is_effective token (some req) = text_eq req.token token && is_privileged (method_of req.method)

abbrev pub effective : Text → List (Option Request) → List (Option Request)
effective token [] = []
effective token (line ∷ lines) =
    let rest = effective token lines in if is_effective token line then line ∷ rest else rest

-- The id that the answer to a line carries.
abbrev pub line_id : Option Request → ℤ
line_id none = pos 0
line_id (some req) = req.id

module _ (os : Os) (token path : Text) where
  handle_method_inert :
      (m : Method) (req : Request) (s : os.State)
      → is_privileged m ≡ false
      → (handle_method os m req path s).0 ≡ s
  unfolding handle_method
  handle_method_inert ping req s h = refl
  handle_method_inert unknown req s h = refl
  handle_method_inert kill_switch req s h = cc
  handle_method_inert add_route_method req s h = cc
  handle_method_inert remove_route_method req s h = cc

  handle_line_inert :
      (line : Option Request) (s : os.State)
      → is_effective token line ≡ false
      → (handle_line os token path line s).0 ≡ s
  unfolding handle_line dispatch
  handle_line_inert none s h = refl
  handle_line_inert (some req) s h =
      ground (arith, handle_method_inert (method_of req.method) req s)

  -- Over a connection, the state of the machine depends on the lines alone that show the server's
  -- token and name a privileged method: leaving out all others changes nothing.
  pub handle-effective :
      (lines : List (Option Request)) (s : os.State)
      → (handle os token path lines s).0 ≡ (handle os token path (effective token lines) s).0
  unfolding handle
  handle-effective [] s = refl
  handle-effective (line ∷ lines) s = elim (Bool-cases (is_effective token line)) [
    | inl e ↦ rw e (handle-effective lines (handle_line os token path line s).0)
    | inr e ↦ rw (e, handle_line_inert line s e) (handle-effective lines s)
  ]

  handle_method-id :
      (m : Method) (req : Request) (s : os.State) → (handle_method os m req path s).1.id ≡ req.id
  unfolding handle_method
  handle_method-id ping req s = refl
  handle_method-id unknown req s = refl
  handle_method-id kill_switch req s = ground arith
  handle_method-id add_route_method req s = ground arith
  handle_method-id remove_route_method req s = ground arith

  handle_line-id :
      (line : Option Request) (s : os.State)
      → (handle_line os token path line s).1.id ≡ line_id line
  unfolding handle_line dispatch
  handle_line-id none s = refl
  handle_line-id (some req) s = ground (arith, handle_method-id (method_of req.method) req s)

  -- Each line gets one answer, in order, with the id of its request, and 0 for a line that is no
  -- request.
  pub handle_ids :
      (lines : List (Option Request)) (s : os.State)
      → map (λ r. r.id) (handle os token path lines s).1 ≡ map line_id lines
  unfolding handle
  handle_ids [] s = refl
  handle_ids (line ∷ lines) s =
      ap₂ ◌∷◌ (handle_line-id line s) (handle_ids lines (handle_line os token path line s).0)

handle_method-params :
    (os : Os) (path : Text) (p q : Request) (s : os.State) (m : Method)
    → p.id ≡ q.id
    → p.method ≡ q.method
    → bool_param (codes "enabled") p.params ≡ bool_param (codes "enabled") q.params
    → string_param (codes "cidr") p.params ≡ string_param (codes "cidr") q.params
    → string_param (codes "gateway") p.params ≡ string_param (codes "gateway") q.params
    → handle_method os m p path s ≡ handle_method os m q path s
unfolding handle_method
handle_method-params os path p q s ping i n b c g = ground arith
handle_method-params os path p q s kill_switch i n b c g = rw (i, b)
handle_method-params os path p q s add_route_method i n b c g = rw (i, c, g)
handle_method-params os path p q s remove_route_method i n b c g = rw (i, c)
handle_method-params os path p q s unknown i n b c g = ground arith

-- Of the parameters, only "enabled", "cidr" and "gateway" matter: two requests that agree on these,
-- on the id, the token and the method, are answered alike and have the same effect.
pub dispatch-params :
    (os : Os) (token path : Text) (p q : Request) (s : os.State)
    → p.id ≡ q.id
    → p.token ≡ q.token
    → p.method ≡ q.method
    → bool_param (codes "enabled") p.params ≡ bool_param (codes "enabled") q.params
    → string_param (codes "cidr") p.params ≡ string_param (codes "cidr") q.params
    → string_param (codes "gateway") p.params ≡ string_param (codes "gateway") q.params
    → dispatch os token path p s ≡ dispatch os token path q s
unfolding dispatch
dispatch-params os token path p q s i t m b c g =
    rw (i, t, m) (ground (arith, handle_method-params os path p q s (method_of q.method) i m b c g))
