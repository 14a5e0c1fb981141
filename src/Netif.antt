-- ===== src/Netif.antt =====
-- cotton-netif/src/network_event.rs: the flags of a network interface, and the events.
pub mod Flags
pub mod GetIfAddrs
pub mod Netlink
mod Tests
use cotton.Prelude.{ℕ, Bool, ◌==◌, bit_and, bit_or}
use cotton.Prelude.Bytes.{Bytes}

-- An interface index is a u32 that is not 0.
pub data NetworkEvent (A : Type 0) : Type 0 where
  new_link : (ix : ℕ) (name : Bytes) (flags : ℕ) → NetworkEvent A
  del_link : (ix : ℕ) → NetworkEvent A
  new_addr : (ix : ℕ) (addr : A) (prefix : ℕ) → NetworkEvent A
  del_addr : (ix : ℕ) (addr : A) (prefix : ℕ) → NetworkEvent A

abbrev pub up : ℕ
up = 0x1

abbrev pub broadcast : ℕ
broadcast = 0x2

abbrev pub loopback : ℕ
loopback = 0x4

abbrev pub pointtopoint : ℕ
pointtopoint = 0x8

abbrev pub running : ℕ
running = 0x40

abbrev pub multicast : ℕ
multicast = 0x1000

unfoldable pub contains : ℕ → ℕ → Bool
contains flags other = bit_and flags other == other

abbrev pub union : ℕ → ℕ → ℕ
union = bit_or
