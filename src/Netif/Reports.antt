-- ===== src/Netif/Reports.antt =====
-- From the report of a network to what the core reads of it: netif_export_android.go with
-- platform_android.go.
use fastflow_client.Base.{ℕ, ◌≡◌, ◌≢◌, false, some, List, map, All, inl, inr, Bool-cases}
use fastflow_client.Base.Int.{ℤ, eqb_ℤ, eqb_ℤ_refl, eqb_ℤ→eq}
use fastflow_client.Base.Text.{Text}
use fastflow_client.Netif.{
  NetSnapshot, NetworkInterface, Registry, find_iface, build_network_interface, update, set_default,
  next_default, current_default, no_network_handle,
}
use fastflow_client.Netif.Parse.Joined.{joined, IsWord, split_non_empty-joined}
use fastflow_client.Netif.Parse.Prefixes.{prefix_text, IsPrefix, read_as, parse_prefixes-joined}
use fastflow_client.Netif.Exports.{
  NetworkInfo, snapshot_from_c, netif_update, netif_default_changed,
}
use fastflow_client.Netif.View.{find_iface-update}

-- The structure carries these addresses and these servers, each list joined by commas.
pub record IsReport (ps : List (List ℕ × ℕ)) (servers : List Text) (info : NetworkInfo)
    : Type 0 where
  pub prefixes : All IsPrefix ps
  pub words : All IsWord servers
  pub addresses : info.addresses ≡ some (joined (map prefix_text ps))
  pub dns : info.dns_servers ≡ some (joined servers)

updated-find_iface :
    (s : NetSnapshot) (r : Registry)
    → find_iface s.handle (update s r).0.ifaces ≡ some (build_network_interface s)
updated-find_iface s r = rw (find_iface-update s.handle s r, eqb_ℤ_refl s.handle)

other_handle : (h k : ℤ) → h ≢ k → eqb_ℤ h k ≡ false
other_handle h k n = elim (Bool-cases (eqb_ℤ h k)) [
  | inl e ↦ absurd (n (eqb_ℤ→eq h k e))
  | inr e ↦ e
]

-- The default network is a tracked one.
next_default_tracked :
    (s : NetSnapshot) (h : ℤ) (v : NetworkInterface) (r : Registry)
    → s.handle ≡ h
    → h ≢ no_network_handle
    → find_iface h r.ifaces ≡ some v
    → next_default (some s) r ≡ some v.interface
unfolding next_default
next_default_tracked s h v r same known found =
    rw (same, other_handle h no_network_handle known, found)

-- A network that is reported with IPv4 addresses in the usual notation and with servers, both lists
-- joined by commas: the registry then holds an interface for its handle with exactly these
-- addresses and servers, in their order. If the network is the default one from then on, by a
-- report that carries the handle alone, `DefaultInterface` returns that interface.
pub netif_default_changed-netif_update :
    (ps : List (List ℕ × ℕ)) (servers : List Text) (info chosen : NetworkInfo) (r : Registry)
    → IsReport ps servers info
    → chosen.net_handle ≡ info.net_handle
    → info.net_handle ≢ no_network_handle
    → let r' = (netif_update (some info) r).0 in
      (v : NetworkInterface) × (find_iface info.net_handle r'.ifaces ≡ some v)
      × (v.interface.addresses ≡ map read_as ps)
      × (v.dns_servers ≡ servers)
      × (current_default (netif_default_changed (some chosen) r').0 ≡ some v.interface)
unfolding netif_update netif_default_changed set_default current_default snapshot_from_c
netif_default_changed-netif_update ps servers info chosen r report same known =
    let s = snapshot_from_c info in
    let found = updated-find_iface s r in
    (
      build_network_interface s,
      found,
      unfold build_network_interface in
          rw report.addresses (parse_prefixes-joined ps report.prefixes),
      unfold build_network_interface in rw report.dns (split_non_empty-joined servers report.words),
      next_default_tracked (snapshot_from_c chosen) info.net_handle (build_network_interface s)
          (update s r).0 same known found,
    )
