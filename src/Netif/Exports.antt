-- ===== src/Netif/Exports.antt =====
-- data/vpn_engine/netif_export_android.go: the exported functions that feed the registry, over the
-- structure of netif_bridge.h. A pointer that may be NULL is an `Option`.
use fastflow_client.Base.{ℕ, Bool, Option, none, some, List, []}
use fastflow_client.Base.Int.{ℤ}
use fastflow_client.Base.Text.{Text}
use fastflow_client.Netif.{
  NetSnapshot, Registry, Event, update, lost, set_default, reset, set_platform,
}

-- `FFNetworkInfo`
pub record NetworkInfo : Type 0 where
  pub net_handle : ℤ
  pub if_index : ℤ
  pub mtu : ℤ
  pub flags : ℕ
  pub if_name : Option Text
  pub addresses : Option Text
  pub dns_servers : Option Text

-- `C.GoString`: the text before the NUL, and none for NULL.
abbrev go_string : Option Text → Text
go_string none = []
go_string (some s) = s

unfoldable pub snapshot_from_c : NetworkInfo → NetSnapshot
snapshot_from_c info = record {
  handle = info.net_handle;
  if_index = info.if_index;
  mtu = info.mtu;
  flags = info.flags;
  if_name = go_string info.if_name;
  addrs = go_string info.addresses;
  dns = go_string info.dns_servers;
}

unfoldable pub netif_update : Option NetworkInfo → Registry → Registry × List Event
unfolding update snapshot_from_c
netif_update none r = (r, [])
netif_update (some info) r = update (snapshot_from_c info) r

unfoldable pub netif_lost : ℤ → Registry → Registry × List Event
unfolding lost
netif_lost handle r = lost handle r

unfoldable pub netif_default_changed : Option NetworkInfo → Registry → Registry × List Event
unfolding set_default snapshot_from_c
netif_default_changed none r = set_default none r
netif_default_changed (some info) r = set_default (some (snapshot_from_c info)) r

unfoldable pub netif_reset : Registry → Registry × List Event
unfolding reset
netif_reset r = reset r

unfoldable pub netif_register_platform : Option (ℤ → ℤ) → Bool → Registry → Registry
unfolding set_platform
netif_register_platform protect replay r = set_platform protect replay r
