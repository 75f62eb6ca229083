-- ===== src/Tests/NetifRuns.antt =====
-- The registry of networks through a change from one network to another.
use fastflow_client.Base.{arith, ℕ, ◌≡◌, refl, false, none, some, List, [], ◌∷◌, map}
use fastflow_client.Base.Int.{ℤ, pos, eqb_ℤ→eq}
use fastflow_client.Base.Text.{Text, codes, is_space}
use fastflow_client.Netif.{
  NetworkInterface, NetSnapshot, new_registry, find_iface, build_network_interface, current_default,
  register_callback, unregister_callback, set_platform, Registry,
}
use fastflow_client.Netif.Parse.{split_non_empty}
use fastflow_client.Netif.View.{
  told_all, Op, seen, gone, listened, perform_all, find_iface-perform_all, IsSound,
  new_registry-IsSound, perform_all-IsSound,
}
use fastflow_client.Netif.Listing.{listing, perform_all-listing}
use fastflow_client.Netif.Parse.Joined.{joined}
use fastflow_client.Netif.Parse.Prefixes.{prefix_text, read_as}
use fastflow_client.Netif.Exports.{NetworkInfo, netif_update, netif_default_changed}
use fastflow_client.Netif.Reports.{IsReport, netif_default_changed-netif_update}

abbrev wlan : NetSnapshot
wlan = record {
  handle = pos 7;
  if_index = pos 3;
  mtu = pos 0;
  flags = 1025;
  if_name = codes "wlan0";
  addrs = codes "192.168.1.5/24, bad,";
  dns = codes "1.1.1.1, 8.8.8.8 ,";
}

abbrev reports : List Op
reports = listened 4 ∷ seen wlan ∷ gone (pos 9) ∷ []

splits_dns : split_non_empty wlan.dns ≡ codes "1.1.1.1" ∷ codes "8.8.8.8" ∷ []
unfolding split_non_empty codes
splits_dns = refl

find_iface-perform_all_example :
    find_iface (pos 7) (perform_all reports new_registry).ifaces
    ≡ some (build_network_interface wlan)
unfolding new_registry find_iface
find_iface-perform_all_example = find_iface-perform_all (pos 7) reports new_registry

perform_all-IsSound_example : IsSound (perform_all reports new_registry)
perform_all-IsSound_example = perform_all-IsSound reports new_registry new_registry-IsSound

registered_and_gone :
    let (r', e) = register_callback 4 new_registry in
    (unregister_callback e r').callbacks ≡ new_registry.callbacks
unfolding new_registry register_callback unregister_callback
registered_and_gone = refl

abbrev refusing : Registry
refusing = set_platform (some (λ fd. pos 1)) false new_registry

abbrev cell : NetSnapshot
cell = record wlan { handle = pos 9; flags = 2; if_name = codes "rmnet0" }

-- The same two networks, in another order and with another one between.
two_orders :
    (h : ℤ)
    → told_all h (seen wlan ∷ seen cell ∷ []) none
      ≡ told_all h (seen cell ∷ seen wlan ∷ gone (pos 11) ∷ []) none
two_orders h = ground (arith, eqb_ℤ→eq (pos 7) h, eqb_ℤ→eq (pos 9) h, eqb_ℤ→eq (pos 11) h)

perform_all-listing_example :
    listing (perform_all (seen wlan ∷ seen cell ∷ []) new_registry)
    ≡ listing (perform_all (seen cell ∷ seen wlan ∷ gone (pos 11) ∷ []) new_registry)
perform_all-listing_example =
    perform_all-listing (seen wlan ∷ seen cell ∷ []) (seen cell ∷ seen wlan ∷ gone (pos 11) ∷ [])
      two_orders

abbrev prefixes : List (List ℕ × ℕ)
prefixes = (10 ∷ 4 ∷ 2 ∷ 1 ∷ [], 24) ∷ (192 ∷ 168 ∷ 0 ∷ 5 ∷ [], 8) ∷ []

abbrev servers : List Text
servers = codes "8.8.8.8" ∷ codes "fd00::1" ∷ []

abbrev info : NetworkInfo
info = record {
  net_handle = pos 7;
  if_index = pos 3;
  mtu = pos 1400;
  flags = 1;
  if_name = some (codes "wlan0");
  addresses = some (joined (map prefix_text prefixes));
  dns_servers = some (joined servers);
}

info-IsReport : IsReport prefixes servers info
unfolding codes is_space
info-IsReport = record {
  prefixes = (
    (record { four = refl; bytes = omega arith }, omega arith),
    ((record { four = refl; bytes = omega arith }, omega arith), tt),
  );
  words = ground arith;
  addresses = refl;
  dns = refl;
}

-- The report of a default network has no lists.
abbrev chosen : NetworkInfo
chosen = record info { addresses = some []; dns_servers = some [] }

netif_default_changed-netif_update_example :
    let r' = (netif_update (some info) new_registry).0 in
    (v : NetworkInterface) × (find_iface (pos 7) r'.ifaces ≡ some v)
    × (v.interface.addresses ≡ map read_as prefixes)
    × (v.dns_servers ≡ servers)
    × (current_default (netif_default_changed (some chosen) r').0 ≡ some v.interface)
netif_default_changed-netif_update_example =
    netif_default_changed-netif_update prefixes servers info chosen new_registry info-IsReport refl
      (λ e. cc)
