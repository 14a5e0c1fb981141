-- ===== src/Netif/GetIfAddrs.antt =====
-- cotton-netif/src/getifaddrs.rs: the interfaces of a snapshot, as events.
pub mod Order
pub mod Complete
use cotton.Prelude.{
  ℕ, zero, suc, ◌+◌, ◌-◌, ◌%◌, ◌^◌, Bool, true, false, ◌||◌, Option, none, some, List, [], ◌∷◌,
  ◌++◌, ◌==◌, leb, bit_and, if◌then◌else◌,
}
use cotton.Prelude.Bytes.{Bytes}
use cotton.Netif.{NetworkEvent, new_link, new_addr}
use cotton.Netif.Flags.{Iff, map_interface_flags}
use cotton.Ssdp.Text.{split_once}

-- What is used of the crate nix, for its interface addresses `D` and socket addresses `X`; the address
-- of the crate no_std_net is of type `A`. A netmask is a number in the order of the host.
pub record Nix (D X A : Type 0) : Type 0 where
  pub interface_name : D → Bytes
  pub flags : D → Iff → Bool
  pub address : D → Option X
  pub netmask : D → Option X
  pub ipv4 : X → Option A
  pub ipv6 : X → Option A
  pub netmask4 : X → Option ℕ
  pub netmask6 : X → Option ℕ
  pub if_nametoindex : Bytes → Option ℕ

-- `leading_ones` of a number of `w` bits.
unfoldable pub leading_ones : ℕ → ℕ → ℕ
leading_ones zero x = 0
leading_ones (suc w) x =
    let rest = leading_ones w (x - 2 ^ w) in if leb (2 ^ w) x then suc rest else 0

abbrev pub member : ℕ → List ℕ → Bool
member n [] = false
member n (m ∷ ms) = n == m || member n ms

-- `eth0:1` is `eth0`.
abbrev pub unaliased : Bytes → Option (Bytes × Bytes) → Bytes
unaliased name none = name
unaliased name (some (prefix, alias)) = prefix

abbrev pub nonzero : Option ℕ → Option ℕ
nonzero none = none
nonzero (some n) = if n == 0 then none else some n

module _ {A : Type 0} where
  abbrev pub masked : ℕ → ℕ → A → Option ℕ → List (NetworkEvent A)
  masked w ix ip none = []
  masked w ix ip (some netmask) =
      new_addr ix ip (bit_and (leading_ones w netmask) 0xFF % 2 ^ 8) ∷ []

module _ {D X A : Type 0} (nix : Nix D X A) where
  abbrev pub name_of : D → Bytes
  name_of d = unaliased (nix.interface_name d) (split_once b':' (nix.interface_name d))

  abbrev pub index_of : D → Option ℕ
  index_of d = nonzero (nix.if_nametoindex (name_of d))

  abbrev pub from_ipv6 : ℕ → Option A → X → List (NetworkEvent A)
  from_ipv6 ix none mask = []
  from_ipv6 ix (some ip) mask = masked 128 ix ip (nix.netmask6 mask)

  -- An address of IPv4 whose netmask is not one of IPv4 is dropped.
  abbrev pub from_ipv4 : ℕ → Option A → X → X → List (NetworkEvent A)
  from_ipv4 ix none addr mask = from_ipv6 ix (nix.ipv6 addr) mask
  from_ipv4 ix (some ip) addr mask = masked 32 ix ip (nix.netmask4 mask)

  abbrev pub from_pair : ℕ → Option X → Option X → List (NetworkEvent A)
  from_pair ix none mask = []
  from_pair ix (some addr) none = []
  from_pair ix (some addr) (some mask) = from_ipv4 ix (nix.ipv4 addr) addr mask

  abbrev pub address_event : ℕ → D → List (NetworkEvent A)
  address_event ix d = from_pair ix (nix.address d) (nix.netmask d)

  abbrev pub link_event : ℕ → List ℕ → D → List (NetworkEvent A)
  link_event ix indexes d =
      if member ix indexes
      then []
      else new_link ix (name_of d) (map_interface_flags (nix.flags d)) ∷ []

  -- One round of the loop; `rest` are the other rounds, from the indexes that have been seen then.
  abbrev pub interface_events :
      List ℕ → D → Option ℕ → (List ℕ → List (NetworkEvent A)) → List (NetworkEvent A)
  interface_events indexes d none rest = rest indexes
  interface_events indexes d (some ix) rest =
      link_event ix indexes d
      ++ (address_event ix d ++ rest (if member ix indexes then indexes else ix ∷ indexes))

  unfoldable pub events_from : List ℕ → List D → List (NetworkEvent A)
  events_from indexes [] = []
  events_from indexes (d ∷ ds) =
      interface_events indexes d (index_of d) (λ seen. events_from seen ds)

  unfoldable pub get_interfaces_inner2 : List D → List (NetworkEvent A)
  get_interfaces_inner2 = events_from []
