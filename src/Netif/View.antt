-- ===== src/Netif/View.antt =====
-- The networks that platform_android.go tracks, as a function of what the platform has reported.
use fastflow_client.Base.{
  ℕ, ◌≡◌, refl, inl, inr, Bool, Option, none, some, List, [], ◌∷◌, arith, if◌then◌else◌,
  Option-cases,
}
use fastflow_client.Base.Int.{ℤ, pos, ◌<ℤ◌, eqb_ℤ, eqb_ℤ_refl, eqb_ℤ→eq}
use fastflow_client.Netif.{
  NetSnapshot, NetworkInterface, Interface, Registry, find_iface, delete_iface,
  build_network_interface, update, lost, set_default, reset, set_platform, set_network_manager,
  register_callback, unregister_callback, new_registry, next_default,
}
use fastflow_client.Netif.Parse.{normalize_mtu}

-- The operations on the registry, as the platform and the core call them.
pub data Op : Type 0 where
  seen : NetSnapshot → Op
  gone : ℤ → Op
  chosen : Option NetSnapshot → Op
  cleared : Op
  bound : Option (ℤ → ℤ) → Bool → Op
  managed : Option ℕ → Op
  listened : ℕ → Op
  unlistened : ℕ → Op

abbrev pub perform : Op → Registry → Registry
perform (seen s) r = (update s r).0
perform (gone h) r = (lost h r).0
perform (chosen s) r = (set_default s r).0
perform cleared r = (reset r).0
perform (bound p b) r = set_platform p b r
perform (managed nm) r = set_network_manager nm r
perform (listened cb) r = (register_callback cb r).0
perform (unlistened e) r = unregister_callback e r

unfoldable pub perform_all : List Op → Registry → Registry
perform_all [] r = r
perform_all (op ∷ ops) r = perform_all ops (perform op r)

-- What one report says of the network `h`, which was `old` before it.
abbrev pub told : ℤ → Op → Option NetworkInterface → Option NetworkInterface
told h (seen s) old = if eqb_ℤ s.handle h then some (build_network_interface s) else old
told h (gone g) old = if eqb_ℤ g h then none else old
told h cleared old = none
told h _ old = old

abbrev pub told_all : ℤ → List Op → Option NetworkInterface → Option NetworkInterface
told_all h [] old = old
told_all h (op ∷ ops) old = told_all h ops (told h op old)

pub find_iface-delete_iface :
    (h g : ℤ) (m : List (ℤ × NetworkInterface))
    → find_iface h (delete_iface g m) ≡ (if eqb_ℤ g h then none else find_iface h m)
unfolding find_iface delete_iface
find_iface-delete_iface h g [] = ground arith
find_iface-delete_iface h g ((k, v) ∷ m) =
    ground
      (arith, find_iface-delete_iface h g m, eqb_ℤ→eq k g, eqb_ℤ→eq k h, eqb_ℤ→eq g h, eqb_ℤ_refl h)

pub find_iface-update :
    (h : ℤ) (s : NetSnapshot) (r : Registry)
    → find_iface h (update s r).0.ifaces
      ≡ (if eqb_ℤ s.handle h then some (build_network_interface s) else find_iface h r.ifaces)
unfolding update find_iface
find_iface-update h s r = ground (arith, find_iface-delete_iface h s.handle r.ifaces)

find_iface-perform :
    (h : ℤ) (op : Op) (r : Registry)
    → find_iface h (perform op r).ifaces ≡ told h op (find_iface h r.ifaces)
find_iface-perform h (seen s) r = find_iface-update h s r
find_iface-perform h (gone g) r = unfold lost in find_iface-delete_iface h g r.ifaces
find_iface-perform h (chosen s) r = unfold set_default in refl
find_iface-perform h cleared r = unfold reset find_iface in refl
find_iface-perform h (bound p b) r = unfold set_platform in refl
find_iface-perform h (managed nm) r = unfold set_network_manager in refl
find_iface-perform h (listened cb) r = unfold register_callback in refl
find_iface-perform h (unlistened e) r = unfold unregister_callback in refl

-- After any operations the registry holds, for every handle, what the last report about it says:
-- the interface built from its last snapshot, or nothing once it was lost or all were dropped.
pub find_iface-perform_all :
    (h : ℤ) (ops : List Op) (r : Registry)
    → find_iface h (perform_all ops r).ifaces ≡ told_all h ops (find_iface h r.ifaces)
unfolding perform_all
find_iface-perform_all h [] r = refl
find_iface-perform_all h (op ∷ ops) r =
    rw (find_iface-perform_all h ops (perform op r), find_iface-perform h op r)

-- No handle is listed twice.
abbrev pub IsKeyed : List (ℤ × NetworkInterface) → Type 0
IsKeyed [] = Unit
IsKeyed ((k, v) ∷ m) = (find_iface k m ≡ none) × IsKeyed m

-- A usable size of packets in every entry.
abbrev AllUsable : List (ℤ × NetworkInterface) → Type 0
AllUsable [] = Unit
AllUsable ((k, v) ∷ m) = (pos 0 <ℤ v.interface.mtu) × AllUsable m

abbrev UsableDefault : Option Interface → Type 0
UsableDefault none = Unit
UsableDefault (some i) = pos 0 <ℤ i.mtu

-- Each handle stands for one entry, and every interface, the default one too, has a positive MTU.
pub record IsSound (r : Registry) : Type 0 where
  pub keyed : IsKeyed r.ifaces
  pub usable : AllUsable r.ifaces
  pub usable_default : UsableDefault r.default_iface

normalize_mtu_pos : (n : ℤ) → pos 0 <ℤ normalize_mtu n
unfolding normalize_mtu
normalize_mtu_pos n = ground arith

pub delete_iface-IsKeyed :
    (h : ℤ) (m : List (ℤ × NetworkInterface)) → IsKeyed m → IsKeyed (delete_iface h m)
unfolding delete_iface
delete_iface-IsKeyed h [] u = tt
delete_iface-IsKeyed h ((k, v) ∷ m) u =
    ground (arith, delete_iface-IsKeyed h m, find_iface-delete_iface k h m)

delete_iface-AllUsable :
    (h : ℤ) (m : List (ℤ × NetworkInterface)) → AllUsable m → AllUsable (delete_iface h m)
unfolding delete_iface
delete_iface-AllUsable h [] u = tt
delete_iface-AllUsable h ((k, v) ∷ m) u = ground (arith, delete_iface-AllUsable h m)

find_iface_usable :
    (h : ℤ) (m : List (ℤ × NetworkInterface)) {v : NetworkInterface}
    → AllUsable m
    → find_iface h m ≡ some v
    → pos 0 <ℤ v.interface.mtu
unfolding find_iface
find_iface_usable h [] u e = cc
find_iface_usable h ((k, w) ∷ m) {v} u e = ground (arith, find_iface_usable h m {v = v})

next_default_usable :
    (s : Option NetSnapshot) (r : Registry) → AllUsable r.ifaces → UsableDefault (next_default s r)
unfolding next_default normalize_mtu
next_default_usable none r u = tt
next_default_usable (some s) r u = elim (Option-cases (find_iface s.handle r.ifaces)) [
  | inl e ↦ ground (arith, normalize_mtu_pos s.mtu)
  | inr (v, e) ↦ ground (arith, find_iface_usable s.handle r.ifaces u e)
]

-- A fresh registry is sound.
pub new_registry-IsSound : IsSound new_registry
unfolding new_registry
new_registry-IsSound = record { keyed = tt; usable = tt; usable_default = tt }

perform-IsSound : (op : Op) (r : Registry) → IsSound r → IsSound (perform op r)
perform-IsSound (seen s) r u =
    unfold update build_network_interface in
    record {
      keyed = (
        rw (find_iface-delete_iface s.handle s.handle r.ifaces, eqb_ℤ_refl s.handle),
        delete_iface-IsKeyed s.handle r.ifaces u.keyed,
      );
      usable = (normalize_mtu_pos s.mtu, delete_iface-AllUsable s.handle r.ifaces u.usable);
      usable_default = u.usable_default;
    }
perform-IsSound (gone h) r u =
    unfold lost in
    record {
      keyed = delete_iface-IsKeyed h r.ifaces u.keyed;
      usable = delete_iface-AllUsable h r.ifaces u.usable;
      usable_default = u.usable_default;
    }
perform-IsSound (chosen s) r u =
    unfold set_default in
    record { keyed = u.keyed; usable = u.usable; usable_default = next_default_usable s r u.usable }
perform-IsSound cleared r u =
    unfold reset in record { keyed = tt; usable = tt; usable_default = tt }
perform-IsSound (bound p b) r u = unfold set_platform in ground arith
perform-IsSound (managed nm) r u = unfold set_network_manager in ground arith
perform-IsSound (listened cb) r u = unfold register_callback in ground arith
perform-IsSound (unlistened e) r u = unfold unregister_callback in ground arith

-- After any operations on a sound registry the registry is sound: `Interfaces()` lists no network
-- twice, and no interface has an MTU of zero or less.
pub perform_all-IsSound : (ops : List Op) (r : Registry) → IsSound r → IsSound (perform_all ops r)
unfolding perform_all
perform_all-IsSound [] r u = u
perform_all-IsSound (op ∷ ops) r u = perform_all-IsSound ops (perform op r) (perform-IsSound op r u)
