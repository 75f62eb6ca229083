-- ===== src/Netif.antt =====
-- data/vpn_engine/platform_android.go and netif_export_android.go: the registry of platform networks.
-- Each operation gives the new registry and the calls that it makes after it has released the mutex,
-- in their order; what these do in turn is a further operation.
pub mod Parse
pub mod View
pub mod Listing
pub mod Default
pub mod Exports
pub mod Reports
pub mod Platform
use fastflow_client.Base.{
  ℕ, ◌+◌, Bool, true, false, not, ◌&&◌, Option, none, some, List, [], ◌∷◌, ◌++◌, ◌==◌,
  if◌then◌else◌, map,
}
use fastflow_client.Base.Calls.{Result, ok, err}
use fastflow_client.Base.Int.{ℤ, pos, negsuc, eqb_ℤ, leb_ℤ, wrap32}
use fastflow_client.Base.Text.{Text, codes, show_ℤ}
use fastflow_client.Net.{Addr}
use fastflow_client.Netif.Parse.{
  has_flag, flag_wifi, flag_cellular, flag_ethernet, flag_metered, flag_constrained, parse_prefixes,
  split_non_empty, normalize_mtu,
}

-- A copied `FFNetworkInfo`.
pub record NetSnapshot : Type 0 where
  pub handle : ℤ
  pub if_index : ℤ
  pub mtu : ℤ
  pub flags : ℕ
  pub if_name : Text
  pub addrs : Text
  pub dns : Text

-- The fields that the program sets of `control.Interface` and `adapter.NetworkInterface`.
pub record Interface : Type 0 where
  pub index : ℤ
  pub mtu : ℤ
  pub name : Text
  pub addresses : List (Addr × ℕ)
  pub flags : ℕ

pub data InterfaceType : Type 0 where
  wifi cellular ethernet other : InterfaceType

pub record NetworkInterface : Type 0 where
  pub interface : Interface
  pub kind : InterfaceType
  pub dns_servers : List Text
  pub expensive : Bool
  pub constrained : Bool

-- A call into the core: the manager re-reads the interfaces, or a callback hears of the default.
pub data Event : Type 0 where
  refreshed : ℕ → Event
  notified : ℕ → Option Interface → Event
  replayed : Event

-- `net.FlagUp | net.FlagRunning | net.FlagMulticast`
abbrev pub default_if_flags : ℕ
default_if_flags = 1 + 32 + 16

abbrev pub no_network_handle : ℤ
no_network_handle = negsuc 0

pub record Registry : Type 0 where
  pub ifaces : List (ℤ × NetworkInterface)
  pub default_iface : Option Interface
  pub callbacks : List (ℕ × ℕ)  -- list element and callback
  pub elements : ℕ  -- elements made so far
  pub network_manager : Option ℕ
  pub protect : Option (ℤ → ℤ)
  pub replay : Bool

unfoldable pub new_registry : Registry
new_registry = record {
  ifaces = [];
  default_iface = none;
  callbacks = [];
  elements = 0;
  network_manager = none;
  protect = none;
  replay = false;
}

-- The map `ifaces`: its reading, writing and `delete`.
unfoldable pub find_iface : ℤ → List (ℤ × NetworkInterface) → Option NetworkInterface
find_iface h [] = none
find_iface h ((k, v) ∷ m) = let rest = find_iface h m in if eqb_ℤ k h then some v else rest

unfoldable pub delete_iface : ℤ → List (ℤ × NetworkInterface) → List (ℤ × NetworkInterface)
delete_iface h [] = []
delete_iface h ((k, v) ∷ m) =
    let rest = delete_iface h m in if eqb_ℤ k h then rest else (k, v) ∷ rest

unfoldable pub store_iface :
    ℤ → NetworkInterface → List (ℤ × NetworkInterface) → List (ℤ × NetworkInterface)
unfolding delete_iface
store_iface h v m = (h, v) ∷ delete_iface h m

-- `interfaceTypeOf`
unfoldable pub interface_type_of : ℕ → InterfaceType
interface_type_of flags =
    if has_flag flag_wifi flags
    then wifi
    else if has_flag flag_cellular flags
    then cellular
    else if has_flag flag_ethernet flags
    then ethernet
    else other

-- `buildNetworkInterface`
unfoldable pub build_network_interface : NetSnapshot → NetworkInterface
unfolding interface_type_of normalize_mtu
build_network_interface s = record {
  interface = record {
    index = s.if_index;
    mtu = normalize_mtu s.mtu;
    name = s.if_name;
    addresses = parse_prefixes s.addrs;
    flags = default_if_flags;
  };
  kind = interface_type_of s.flags;
  dns_servers = split_non_empty s.dns;
  expensive = has_flag flag_metered s.flags;
  constrained = has_flag flag_constrained s.flags;
}

-- `refreshInterfaces`
abbrev pub refresh_interfaces : Option ℕ → List Event
refresh_interfaces none = []
refresh_interfaces (some manager) = refreshed manager ∷ []

-- `snapshotCallbacksLocked`, and the loop that calls them.
abbrev pub notify_all : List (ℕ × ℕ) → Option Interface → List Event
notify_all [] next = []
notify_all ((element, cb) ∷ cbs) next = notified cb next ∷ notify_all cbs next

abbrev is_some {ℓ} : {A : Type ℓ} → Option A → Bool
is_some none = false
is_some (some a) = true

unfoldable pub update : NetSnapshot → Registry → Registry × List Event
unfolding store_iface
update s r = (
  record r { ifaces = store_iface s.handle (build_network_interface s) r.ifaces },
  refresh_interfaces r.network_manager,
)

unfoldable pub lost : ℤ → Registry → Registry × List Event
unfolding find_iface delete_iface
lost handle r = (
  record r { ifaces = delete_iface handle r.ifaces },
  if is_some (find_iface handle r.ifaces) then refresh_interfaces r.network_manager else [],
)

abbrev sparse : NetSnapshot → Interface
sparse s = record {
  index = s.if_index;
  mtu = normalize_mtu s.mtu;
  name = s.if_name;
  addresses = [];
  flags = default_if_flags;
}

-- The interface of a tracked network, or the sparse one of the payload.
abbrev tracked_or_sparse : Option NetworkInterface → NetSnapshot → Interface
tracked_or_sparse none s = sparse s
tracked_or_sparse (some tracked) s = tracked.interface

unfoldable pub next_default : Option NetSnapshot → Registry → Option Interface
unfolding find_iface normalize_mtu
next_default none r = none
next_default (some s) r =
    if eqb_ℤ s.handle no_network_handle
    then none
    else some (tracked_or_sparse (find_iface s.handle r.ifaces) s)

unfoldable pub set_default : Option NetSnapshot → Registry → Registry × List Event
unfolding next_default
set_default s r =
    let next = next_default s r in
    (
      record r { default_iface = next },
      refresh_interfaces r.network_manager ++ notify_all r.callbacks next,
    )

unfoldable pub reset : Registry → Registry × List Event
reset r = (
  record r { ifaces = []; default_iface = none },
  refresh_interfaces r.network_manager ++ notify_all r.callbacks none,
)

unfoldable pub set_platform : Option (ℤ → ℤ) → Bool → Registry → Registry
set_platform protect replay r = record r { protect = protect; replay = replay }

unfoldable pub set_network_manager : Option ℕ → Registry → Registry
set_network_manager nm r = record r { network_manager = nm }

-- `interfaces`: Go walks its map in any order.
unfoldable pub interfaces : Registry → List NetworkInterface
interfaces r = map (λ e. e.1) r.ifaces

unfoldable pub current_default : Registry → Option Interface
current_default r = r.default_iface

-- `PushBack`, with the element that it returns.
unfoldable pub register_callback : ℕ → Registry → Registry × ℕ
register_callback cb r = (
  record r { callbacks = r.callbacks ++ ((r.elements, cb) ∷ []); elements = r.elements + 1 },
  r.elements,
)

unfoldable pub remove_element : ℕ → List (ℕ × ℕ) → List (ℕ × ℕ)
remove_element e [] = []
remove_element e ((d, cb) ∷ cbs) =
    let rest = remove_element e cbs in if d == e then cbs else (d, cb) ∷ rest

unfoldable pub unregister_callback : ℕ → Registry → Registry
unfolding remove_element
unregister_callback e r = record r { callbacks = remove_element e r.callbacks }

-- `protectFd`
unfoldable pub protect_fd : ℤ → Registry → Option Text
protect_fd fd r = elim r.protect [
  | none ↦ none
  | some fn ↦
      let rc = fn (wrap32 fd) in
      if eqb_ℤ rc (pos 0)
      then none
      else some (codes "VpnService.protect(" ++ (show_ℤ fd ++ (codes ") failed: rc=" ++ show_ℤ rc)))
]

-- `requestReplay`, and the monitor's `Start`
unfoldable pub request_replay : Registry → List Event
request_replay r = if r.replay then replayed ∷ [] else []

-- `OpenTun`, for the descriptor that the engine holds: the core's `tun.New` is given it.
unfoldable pub open_tun {ℓ} : {A : Type ℓ} → (ℤ → Result A) → ℤ → Result A
open_tun tun_new fd = if leb_ℤ (pos 0) fd then tun_new fd else err (codes "invalid argument")
