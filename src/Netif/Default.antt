-- ===== src/Netif/Default.antt =====
-- The default network of platform_android.go, and who hears of it.
use fastflow_client.Base.{
  ℕ, ◌<◌, ◌≡◌, refl, ap, ◌↔◌, ◌⊎◌, inl, inr, Bool, true, false, Option, none, some, List, [], ◌∷◌,
  ◌++◌, arith, Option-cases, map,
}
use fastflow_client.Base.Int.{ℤ, pos, eqb_ℤ, eqb_ℤ_refl, eqb_ℤ→eq, wrap32}
use fastflow_client.Netif.{
  NetSnapshot, NetworkInterface, Interface, Registry, Event, notified, find_iface, update, lost,
  set_default, reset, set_platform, set_network_manager, register_callback, unregister_callback,
  remove_element, current_default, next_default, notify_all, refresh_interfaces, protect_fd,
  no_network_handle,
}
use fastflow_client.Netif.View.{
  Op, seen, gone, chosen, cleared, bound, managed, listened, unlistened, perform, perform_all,
  told_all, find_iface-perform_all,
}

-- The reports that set the default network.
abbrev pub sets_default : Op → Bool
sets_default (chosen s) = true
sets_default cleared = true
sets_default _ = false

abbrev pub Quiet : List Op → Type 0
Quiet [] = Unit
Quiet (op ∷ ops) = (sets_default op ≡ false) × Quiet ops

perform_quiet :
    (op : Op) (r : Registry)
    → sets_default op ≡ false
    → (perform op r).default_iface ≡ r.default_iface
perform_quiet (seen s) r q = unfold update in refl
perform_quiet (gone h) r q = unfold lost in refl
perform_quiet (chosen s) r q = cc
perform_quiet cleared r q = cc
perform_quiet (bound p b) r q = unfold set_platform in refl
perform_quiet (managed nm) r q = unfold set_network_manager in refl
perform_quiet (listened cb) r q = unfold register_callback in refl
perform_quiet (unlistened e) r q = unfold unregister_callback in refl

-- Operations that are neither a default change nor a reset, such as the loss of the default
-- network itself, leave `DefaultInterface` as it was.
pub perform_all-current_default :
    (ops : List Op) (r : Registry)
    → Quiet ops
    → current_default (perform_all ops r) ≡ current_default r
unfolding perform_all current_default
perform_all-current_default [] r q = refl
perform_all-current_default (op ∷ ops) r q =
    rw (perform_all-current_default ops (perform op r) q.1, perform_quiet op r q.0)

-- The callbacks that hear of a change, and what they are told.
abbrev pub hearings : List Event → List (ℕ × Option Interface)
hearings [] = []
hearings (notified cb next ∷ es) = (cb, next) ∷ hearings es
hearings (_ ∷ es) = hearings es

hearings-notify_all :
    (cbs : List (ℕ × ℕ)) (next : Option Interface)
    → hearings (notify_all cbs next) ≡ map (λ c. (c.1, next)) cbs
hearings-notify_all [] next = refl
hearings-notify_all ((e, cb) ∷ cbs) next = ap (λ l. (cb, next) ∷ l) (hearings-notify_all cbs next)

hearings-refresh :
    (nm : Option ℕ) (es : List Event) → hearings (refresh_interfaces nm ++ es) ≡ hearings es
hearings-refresh none es = refl
hearings-refresh (some m) es = refl

-- After a default change every registered callback hears, once and in the order
-- of registration, of the default network that `DefaultInterface` returns from then on.
pub set_default_tells :
    (s : Option NetSnapshot) (r : Registry)
    → hearings (set_default s r).1
      ≡ map (λ c. (c.1, current_default (set_default s r).0)) r.callbacks
unfolding set_default current_default
set_default_tells s r =
    rw (hearings-refresh r.network_manager) (hearings-notify_all r.callbacks (next_default s r))

-- After a reset every registered callback hears, in the order of registration, of the missing default.
pub reset_tells :
    (r : Registry)
    → hearings (reset r).1 ≡ map (λ c. (c.1, current_default (reset r).0)) r.callbacks
unfolding reset current_default
reset_tells r = rw (hearings-refresh r.network_manager) (hearings-notify_all r.callbacks none)

-- A default change to a handle other than that of no network, which was reported and not lost
-- since, takes over the interface of the last report, and not the sparse one of the change.
pub set_default-perform_all :
    (s : NetSnapshot) (ops : List Op) (r : Registry) {v : NetworkInterface}
    → eqb_ℤ s.handle no_network_handle ≡ false
    → told_all s.handle ops (find_iface s.handle r.ifaces) ≡ some v
    → current_default (set_default (some s) (perform_all ops r)).0 ≡ some v.interface
unfolding set_default current_default
set_default-perform_all s ops r h t = ground (arith, find_iface-perform_all s.handle ops r)

-- Every element registered is older than the counter.
abbrev pub Fresh : ℕ → List (ℕ × ℕ) → Type 0
Fresh n [] = Unit
Fresh n ((e, cb) ∷ cbs) = (e < n) × Fresh n cbs

remove_element-append :
    (n cb : ℕ) (cbs : List (ℕ × ℕ)) → Fresh n cbs → remove_element n (cbs ++ ((n, cb) ∷ [])) ≡ cbs
unfolding remove_element
remove_element-append n cb [] f = ground arith
remove_element-append n cb ((e, c) ∷ cbs) f = ground (arith, remove_element-append n cb cbs)

-- Unregistering the element that a registration returned restores the callbacks.
pub unregister_callback-register_callback :
    (cb : ℕ) (r : Registry)
    → Fresh r.elements r.callbacks
    → let (r', e) = register_callback cb r in (unregister_callback e r').callbacks ≡ r.callbacks
unfolding register_callback unregister_callback
unregister_callback-register_callback cb r f = remove_element-append r.elements cb r.callbacks f

-- `protectFd` succeeds exactly where no function is registered or the registered one returns 0
-- for the descriptor's low 32 bits.
pub protect_fd_iff :
    (fd : ℤ) (r : Registry)
    → (protect_fd fd r ≡ none)
      ↔ ((r.protect ≡ none) ⊎ ((fn : ℤ → ℤ) × (r.protect ≡ some fn) × (fn (wrap32 fd) ≡ pos 0)))
unfolding protect_fd
protect_fd_iff fd r = elim (Option-cases r.protect) [
  | inl e ↦ (λ h. inl e, λ h. ground arith)
  | inr (fn, e) ↦ (
    λ h. inr (fn, e, ground (arith, eqb_ℤ→eq (fn (wrap32 fd)) (pos 0))),
    λ h. ground (arith, eqb_ℤ_refl (pos 0)),
  )
]
