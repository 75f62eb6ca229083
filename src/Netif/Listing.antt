-- ===== src/Netif/Listing.antt =====
-- The list that `Interfaces()` of data/vpn_engine/platform_android.go gives to the core. Go walks a
-- map in an order that it chooses anew each time, so that only the list without its order says
-- something.
use mathlib.Core.List.Perm
use mathlib.Core.List.{Perm}
use mathlib.Core.Quot
use mathlib.Core.Quot.{Quot}
use fastflow_client.Base.{◌≡◌, refl, inl, inr, none, some, List, [], ◌∷◌, arith, Bool-cases}
use fastflow_client.Base.Int.{ℤ, eqb_ℤ, eqb_ℤ_refl, eqb_ℤ→eq}
use fastflow_client.Netif.{
  NetworkInterface, Registry, find_iface, delete_iface, interfaces, new_registry,
}
use fastflow_client.Netif.View.{
  Op, perform_all, told_all, find_iface-perform_all, find_iface-delete_iface, IsKeyed,
  delete_iface-IsKeyed, new_registry-IsSound, perform_all-IsSound,
}

abbrev pub Listing : Type 0
Listing = Quot (Perm {A = NetworkInterface})

-- `interfaces`, whatever order the map is walked in.
abbrev pub listing : Registry → Listing
listing r = Quot.mk (interfaces r)

delete_iface_absent :
    (k : ℤ) (m : List (ℤ × NetworkInterface)) → find_iface k m ≡ none → delete_iface k m ≡ m
unfolding find_iface delete_iface
delete_iface_absent k [] e = refl
delete_iface_absent k ((j, v) ∷ m) e = ground (arith, delete_iface_absent k m)

brought_forward :
    (k : ℤ) (v : NetworkInterface) (m : List (ℤ × NetworkInterface))
    → IsKeyed m
    → find_iface k m ≡ some v
    → Perm m ((k, v) ∷ delete_iface k m)
unfolding find_iface delete_iface
brought_forward k v [] u e = cc
brought_forward k v ((j, w) ∷ m) u e = elim (Bool-cases (eqb_ℤ j k)) [
  | inl same ↦
      let rest = delete_iface_absent k m (ground (arith, same, eqb_ℤ→eq j k)) in
      rw (same, rest) (Perm.cons' (ground (arith, same, eqb_ℤ→eq j k)) Perm.rfl)
  | inr differs ↦ rw differs (
      Perm.trans (Perm.cons (j, w) (brought_forward k v m u.1 (ground (arith, differs))))
        (Perm.swap (k, v) (j, w) (delete_iface k m)))
]

-- Two registries in which every handle has the same entry hold the same entries.
same_entries :
    (m n : List (ℤ × NetworkInterface))
    → IsKeyed m
    → IsKeyed n
    → ((h : ℤ) → find_iface h m ≡ find_iface h n)
    → Perm m n
unfolding find_iface
same_entries [] [] u v e = Perm.rfl
same_entries [] ((k, w) ∷ n) u v e = absurd (ground (arith, e k, eqb_ℤ_refl k))
same_entries ((k, w) ∷ m) n u v e =
    let here = brought_forward k w n v (ground (arith, e k, eqb_ℤ_refl k)) in
    Perm.trans
      (Perm.cons (k, w)
        (same_entries m (delete_iface k n) u.1 (delete_iface-IsKeyed k n v)
          (λ h. rw (find_iface-delete_iface h k n) (ground (arith, e h, u.0, eqb_ℤ→eq k h)))))
      (Perm.symm here)

-- What `Interfaces()` lists depends, but for the order, on the last report about each handle alone:
-- two histories of the registry that end with the same reports, in whatever order and with whatever
-- else between them, give the same list up to its order.
pub perform_all-listing :
    (ops others : List Op)
    → ((h : ℤ) → told_all h ops none ≡ told_all h others none)
    → listing (perform_all ops new_registry) ≡ listing (perform_all others new_registry)
perform_all-listing ops others same = Quot.sound (
    unfold interfaces in
    Perm.map (λ e. e.1)
      (same_entries (perform_all ops new_registry).ifaces (perform_all others new_registry).ifaces
        (perform_all-IsSound ops new_registry new_registry-IsSound).keyed
        (perform_all-IsSound others new_registry new_registry-IsSound).keyed
        (λ h.
          rw
            (
              find_iface-perform_all h ops new_registry,
              find_iface-perform_all h others new_registry,
            )
            (unfold new_registry find_iface in same h))))
