-- ===== src/Netif/Tests.antt =====
-- cotton-netif/src/getifaddrs.rs on a concrete snapshot.
use cotton.Prelude.{ℕ, ◌≡◌, refl, Bool, true, false, none, some, List, [], ◌∷◌, length}
use cotton.Prelude.Bytes.{Bytes, codes}
use cotton.Netif.{new_link, new_addr, del_addr}
use cotton.Netif.Flags.{
  Iff, iff_up, iff_running, iff_loopback, iff_pointopoint, iff_broadcast, iff_multicast,
  map_interface_flags,
}
use cotton.Netif.GetIfAddrs.{Nix, leading_ones, events_from, get_interfaces_inner2}
use cotton.Netif.GetIfAddrs.Order.{InOrder}
use cotton.Netif.GetIfAddrs.Complete.{AllReported, get_interfaces_inner2-AllReported}
use cotton.Netif.Netlink.{
  Rtm, newlink, dellink, newaddr, deladdr, Neli, IpAddr, ip, translate_link_message,
  translate_addr_message,
}
use cotton.Ssdp.Text.{split_once}

abbrev on_loopback : Iff → Bool
on_loopback iff_up = true
on_loopback iff_running = true
on_loopback iff_loopback = true
on_loopback iff_pointopoint = false
on_loopback iff_broadcast = false
on_loopback iff_multicast = false

-- An entry of the snapshot is a name and an address of IPv4; a name's index is its length.
abbrev system : Nix (Bytes × ℕ) ℕ ℕ
system = record {
  interface_name = λ d. d.0;
  flags = λ d. on_loopback;
  address = λ d. some d.1;
  netmask = λ d. some 0xFF00_0000;
  ipv4 = λ x. some x;
  ipv6 = λ x. none;
  netmask4 = λ x. some x;
  netmask6 = λ x. none;
  if_nametoindex = λ name. some (length name);
}

abbrev snapshot : List (Bytes × ℕ)
snapshot = (codes "lo", 0x7F00_0001) ∷ (codes "lo:1", 0x7F00_0002) ∷ []

announced :
    get_interfaces_inner2 system snapshot
    ≡ new_link 2 (codes "lo") 0x45 ∷ new_addr 2 0x7F00_0001 8 ∷ new_addr 2 0x7F00_0002 8 ∷ []
unfolding get_interfaces_inner2 events_from map_interface_flags leading_ones split_once
announced = refl

get_interfaces_inner2-AllReported_example :
    InOrder [] (get_interfaces_inner2 system snapshot)
    × AllReported system [] (get_interfaces_inner2 system snapshot) snapshot
get_interfaces_inner2-AllReported_example = get_interfaces_inner2-AllReported system snapshot

-- Messages that are an index, a type and an address.
abbrev messages : Neli (ℕ × Rtm) (ℕ × Rtm × Bytes) ℕ (ℕ × Bytes)
messages = record {
  link_type = λ l. l.1;
  link_payload = λ l. some l.0;
  ifi_index = λ p. p;
  ifi_flags = λ p. on_loopback;
  ifname = λ p. some (codes "lo");
  addr_type = λ r. r.1;
  addr_payload = λ r. some (r.0, r.2);
  ifa_index = λ p. p.0;
  ifa_prefixlen = λ p. 24;
  ifa_address = λ p. some p.1;
}

abbrev bits : IpAddr ℕ
bits = record { ipv4 = λ x. x; ipv6 = λ x. x }

link_found :
    translate_link_message {A = ℕ} messages (2, newlink) ≡ some (new_link 2 (codes "lo") 0x45)
unfolding translate_link_message map_interface_flags
link_found = refl

no_link_zero : translate_link_message {A = ℕ} messages (0, dellink) ≡ none
unfolding translate_link_message
no_link_zero = refl

address_gone :
    translate_addr_message messages bits (2, deladdr, 10 ∷ 0 ∷ 0 ∷ 1 ∷ [])
    ≡ some (del_addr 2 0x0A00_0001 24)
unfolding translate_addr_message ip
address_gone = refl

five_bytes : translate_addr_message messages bits (2, newaddr, 10 ∷ 0 ∷ 0 ∷ 1 ∷ 9 ∷ []) ≡ none
unfolding translate_addr_message ip
five_bytes = refl
