-- ===== src/Netif/Platform.antt =====
-- data/vpn_engine/platform_android.go: what the core calls, the methods of `androidPlatform` and of
-- `androidInterfaceMonitor`, which share one registry.
use fastflow_client.Base.{
  ℕ, ◌+◌, ◌<◌, ◌≡◌, refl, Bool, true, false, Option, none, some, List, [], ◌∷◌, ◌++◌, All,
  All-append, ◌∙◌, inl, inr, Bool-cases, arith, ◌==◌,
}
use fastflow_client.Base.Int.{ℤ}
use fastflow_client.Base.Text.{Text, codes}
use fastflow_client.Netif.{
  Interface, NetworkInterface, Registry, Event, new_registry, set_network_manager, interfaces,
  current_default, register_callback, unregister_callback, remove_element, protect_fd,
  request_replay, update, lost, set_default, reset, set_platform,
}
use fastflow_client.Netif.View.{
  Op, seen, gone, chosen, cleared, bound, managed, listened, unlistened, perform, perform_all,
}

pub data CoreCall : Type 0 where
  -- `androidPlatform`, but `OpenTun`
  initialize : ℕ → CoreCall
  use_auto_detect_control : CoreCall
  auto_detect_interface_control : ℤ → CoreCall
  use_default_interface_monitor : CoreCall
  use_interface_getter : CoreCall
  create_default_interface_monitor : CoreCall
  get_interfaces : CoreCall
  under_network_extension : CoreCall
  include_all_networks : CoreCall
  clear_dns_cache : CoreCall
  read_wifi_state : CoreCall
  find_process_info : CoreCall
  send_notification : CoreCall
  -- `androidInterfaceMonitor`
  start : CoreCall
  close : CoreCall
  default_interface : CoreCall
  override_android_vpn : CoreCall
  android_vpn_enabled : CoreCall
  register : ℕ → CoreCall
  unregister : ℕ → CoreCall

pub data Answer : Type 0 where
  nothing : Answer
  error : Option Text → Answer
  flag : Bool → Answer
  monitor : Answer
  empty_state : Answer
  default : Option Interface → Answer
  list : List NetworkInterface → Answer
  element : ℕ → Answer

unfoldable pub core_call : CoreCall → Registry → Registry × List Event × Answer
unfolding set_network_manager
core_call (initialize nm) r = (set_network_manager (some nm) r, [], error none)
core_call use_auto_detect_control r = (r, [], flag true)
core_call (auto_detect_interface_control fd) r = (r, [], error (protect_fd fd r))
core_call use_default_interface_monitor r = (r, [], flag true)
core_call use_interface_getter r = (r, [], flag true)
core_call create_default_interface_monitor r = (r, [], monitor)
core_call get_interfaces r = (r, [], list (interfaces r))
core_call under_network_extension r = (r, [], flag false)
core_call include_all_networks r = (r, [], flag false)
core_call clear_dns_cache r = (r, [], nothing)
core_call read_wifi_state r = (r, [], empty_state)
core_call find_process_info r = (r, [], error (some (codes "invalid argument")))
core_call send_notification r = (r, [], error none)
core_call start r = (r, request_replay r, error none)
core_call close r = (r, [], error none)
core_call default_interface r = (r, [], default (current_default r))
core_call override_android_vpn r = (r, [], flag false)
core_call android_vpn_enabled r = (r, [], flag false)
core_call (register cb) r = let (r', e) = register_callback cb r in (r', [], element e)
core_call (unregister e) r = (unregister_callback e r, [], nothing)

unfoldable pub core_calls : List CoreCall → Registry → Registry
core_calls [] r = r
core_calls (c ∷ cs) r = core_calls cs (core_call c r).0

-- What the host reports, and the functions that it has registered.
abbrev pub SameHost : Registry → Registry → Type 0
SameHost r s =
    (s.ifaces ≡ r.ifaces)
    × (s.default_iface ≡ r.default_iface)
    × (s.protect ≡ r.protect)
    × (s.replay ≡ r.replay)

core_call-SameHost : (c : CoreCall) (r : Registry) → SameHost r (core_call c r).0
unfolding core_call set_network_manager register_callback unregister_callback
core_call-SameHost (initialize nm) r = (refl, refl, refl, refl)
core_call-SameHost (register cb) r = (refl, refl, refl, refl)
core_call-SameHost (unregister e) r = (refl, refl, refl, refl)
core_call-SameHost _ r = (refl, refl, refl, refl)

core_calls-SameHost : (cs : List CoreCall) (r : Registry) → SameHost r (core_calls cs r)
unfolding core_calls
core_calls-SameHost [] r = (refl, refl, refl, refl)
core_calls-SameHost (c ∷ cs) r =
    let h = core_call-SameHost c r in
    let k = core_calls-SameHost cs (core_call c r).0 in (k.0 ∙ h.0, k.1 ∙ h.1, k.2 ∙ h.2, k.3 ∙ h.3)

-- Whatever the core calls, in whatever order, the networks that the host has reported, its default
-- network and its two functions stay as they are, so that the answers about them do as well.
pub core_calls-host :
    (cs : List CoreCall) (r : Registry)
    → SameHost r (core_calls cs r)
      × (interfaces (core_calls cs r) ≡ interfaces r)
      × (current_default (core_calls cs r) ≡ current_default r)
      × ((fd : ℤ) → protect_fd fd (core_calls cs r) ≡ protect_fd fd r)
      × (request_replay (core_calls cs r) ≡ request_replay r)
core_calls-host cs r =
    let h = core_calls-SameHost cs r in
    (
      h,
      unfold interfaces in rw h.0 refl,
      unfold current_default in h.1,
      λ fd. unfold protect_fd in rw h.2 refl,
      unfold request_replay in rw h.3 refl,
    )

-- The elements that the callbacks stand at have been made.
abbrev IsFresh : Registry → Type 0
IsFresh r = All (λ c. c.0 < r.elements) r.callbacks

later : (n : ℕ) (cbs : List (ℕ × ℕ)) → All (λ c. c.0 < n) cbs → All (λ c. c.0 < n + 1) cbs
later n [] f = f
later n (c ∷ cbs) f = (ground (arith, f.0), later n cbs f.1)

remove_element-All :
    (n e : ℕ) (cbs : List (ℕ × ℕ))
    → All (λ c. c.0 < n) cbs
    → All (λ c. c.0 < n) (remove_element e cbs)
unfolding remove_element
remove_element-All n e [] f = f
remove_element-All n e ((d, cb) ∷ cbs) f = elim (Bool-cases (d == e)) [
  | inl q ↦ rw q f.1
  | inr q ↦ rw q (f.0, remove_element-All n e cbs f.1)
]

remove_element-last :
    (n cb : ℕ) (cbs : List (ℕ × ℕ))
    → All (λ c. c.0 < n) cbs
    → remove_element n (cbs ++ ((n, cb) ∷ [])) ≡ cbs
unfolding remove_element
remove_element-last n cb [] f = ground arith
remove_element-last n cb ((d, x) ∷ cbs) f = ground (arith, f.0, remove_element-last n cb cbs f.1)

perform-IsFresh : (op : Op) (r : Registry) → IsFresh r → IsFresh (perform op r)
perform-IsFresh (seen s) r f = unfold update in f
perform-IsFresh (gone h) r f = unfold lost in f
perform-IsFresh (chosen s) r f = unfold set_default in f
perform-IsFresh cleared r f = unfold reset in f
perform-IsFresh (bound p b) r f = unfold set_platform in f
perform-IsFresh (managed nm) r f = unfold set_network_manager in f
perform-IsFresh (listened cb) r f =
    unfold register_callback in
    All-append (λ c. c.0 < r.elements + 1) r.callbacks ((r.elements, cb) ∷ [])
      (later r.elements r.callbacks f) (omega arith, tt)
perform-IsFresh (unlistened e) r f =
    unfold unregister_callback in remove_element-All r.elements e r.callbacks f

perform_all-IsFresh : (ops : List Op) (r : Registry) → IsFresh r → IsFresh (perform_all ops r)
unfolding perform_all
perform_all-IsFresh [] r f = f
perform_all-IsFresh (op ∷ ops) r f = perform_all-IsFresh ops (perform op r) (perform-IsFresh op r f)

-- After any operations on a new registry, a callback that is registered and then unregistered by
-- the element that came back leaves the list of the callbacks as it was: the element is that of no
-- other callback.
pub unregister_callback-register_callback :
    (ops : List Op) (cb : ℕ)
    → (unregister_callback
        (register_callback cb (perform_all ops new_registry)).1
        (register_callback cb (perform_all ops new_registry)).0).callbacks
      ≡ (perform_all ops new_registry).callbacks
unfolding register_callback unregister_callback
unregister_callback-register_callback ops cb =
    remove_element-last (perform_all ops new_registry).elements cb
      (perform_all ops new_registry).callbacks
      (perform_all-IsFresh ops new_registry (unfold new_registry in tt))
