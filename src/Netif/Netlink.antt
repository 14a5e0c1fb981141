-- ===== src/Netif/Netlink.antt =====
-- cotton-netif/src/linux_netlink.rs: what is made of a message of rtnetlink.
use cotton.Prelude.{ℕ, Bool, Option, none, some, ◌==◌, length, if◌then◌else◌}
use cotton.Prelude.Bytes.{Bytes, from_be_bytes}
use cotton.Netif.{NetworkEvent, new_link, del_link, new_addr, del_addr}
use cotton.Netif.Flags.{Iff, map_interface_flags}
use cotton.Netif.GetIfAddrs.{nonzero}

-- The types of messages that are told apart.
pub data Rtm : Type 0 where
  newlink dellink newaddr deladdr other : Rtm

-- What is used of the messages of the crate neli: `L` about a link and `R` about an address, each with
-- its payload where it has one. An index is a number below 2 ^ 32.
pub record Neli (L R LP RP : Type 0) : Type 0 where
  pub link_type : L → Rtm
  pub link_payload : L → Option LP
  pub ifi_index : LP → ℕ
  pub ifi_flags : LP → Iff → Bool
  pub ifname : LP → Option Bytes
  pub addr_type : R → Rtm
  pub addr_payload : R → Option RP
  pub ifa_index : RP → ℕ
  pub ifa_prefixlen : RP → ℕ
  pub ifa_address : RP → Option Bytes

-- The addresses of std, from their bits.
pub record IpAddr (A : Type 0) : Type 0 where
  pub ipv4 : ℕ → A
  pub ipv6 : ℕ → A

module _ {A : Type 0} (addrs : IpAddr A) where
  unfoldable pub ip : Bytes → Option A
  ip ip_bytes =
      if length ip_bytes == 4
      then some (addrs.ipv4 (from_be_bytes ip_bytes))
      else if length ip_bytes == 16
      then some (addrs.ipv6 (from_be_bytes ip_bytes))
      else none

abbrev and_then : {X Y : Type 0} → Option X → (X → Option Y) → Option Y
and_then none f = none
and_then (some x) f = f x

module _ {A L R LP RP : Type 0} (neli : Neli L R LP RP) where
  abbrev link_event : Rtm → LP → Option (NetworkEvent A)
  link_event newlink p = and_then (neli.ifname p) (λ name.
      and_then (nonzero (some (neli.ifi_index p)))
        (λ ix. some (new_link ix name (map_interface_flags (neli.ifi_flags p)))))
  link_event dellink p = and_then (nonzero (some (neli.ifi_index p))) (λ ix. some (del_link ix))
  link_event newaddr p = none
  link_event deladdr p = none
  link_event other p = none

  unfoldable pub translate_link_message : L → Option (NetworkEvent A)
  translate_link_message msg = and_then (neli.link_payload msg) (link_event (neli.link_type msg))

  abbrev addr_event : Rtm → RP → A → Option (NetworkEvent A)
  addr_event newaddr p addr =
      and_then (nonzero (some (neli.ifa_index p)))
        (λ ix. some (new_addr ix addr (neli.ifa_prefixlen p)))
  addr_event deladdr p addr =
      and_then (nonzero (some (neli.ifa_index p)))
        (λ ix. some (del_addr ix addr (neli.ifa_prefixlen p)))
  addr_event newlink p addr = none
  addr_event dellink p addr = none
  addr_event other p addr = none

  unfoldable pub translate_addr_message : IpAddr A → R → Option (NetworkEvent A)
  translate_addr_message addrs msg =
      and_then (neli.addr_payload msg) (λ p.
        and_then (and_then (neli.ifa_address p) (ip addrs)) (addr_event (neli.addr_type msg) p))
