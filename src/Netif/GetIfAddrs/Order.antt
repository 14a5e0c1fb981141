-- ===== src/Netif/GetIfAddrs/Order.antt =====
-- cotton-netif/src/getifaddrs.rs: an interface is announced before its addresses.
use cotton.Prelude.{
  ℕ, ◌≡◌, ◌≢◌, true, false, Bool-cases, inl, inr, Option, none, some, List, [], ◌∷◌, ◌++◌, ◌==◌,
  if◌then◌else◌, arith,
}
use cotton.Netif.{NetworkEvent, new_link, new_addr}
use cotton.Netif.GetIfAddrs.{
  Nix, member, nonzero, masked, from_ipv6, from_ipv4, from_pair, link_event, name_of, address_event,
  interface_events, events_from,
}

-- The events come in order when these interfaces have been announced: each interface is announced
-- once, with an index that is not 0, and before its addresses; and nothing is taken back.
pub data InOrder {A : Type 0} : List ℕ → List (NetworkEvent A) → Type 0 where
  done : {known : List ℕ} → InOrder known []
  link :
      {known : List ℕ} {ix : ℕ} {name : List ℕ} {flags : ℕ} {events : List (NetworkEvent A)}
      → ix ≢ 0
      → member ix known ≡ false
      → InOrder (ix ∷ known) events
      → InOrder known (new_link ix name flags ∷ events)
  addr :
      {known : List ℕ} {ix : ℕ} {ip : A} {prefix : ℕ} {events : List (NetworkEvent A)}
      → member ix known ≡ true
      → InOrder known events
      → InOrder known (new_addr ix ip prefix ∷ events)

module _ {A : Type 0} where
  masked-InOrder :
      (w ix : ℕ) (ip : A) (mask : Option ℕ) {known : List ℕ} {events : List (NetworkEvent A)}
      → member ix known ≡ true
      → InOrder known events
      → InOrder known (masked w ix ip mask ++ events)
  masked-InOrder w ix ip none h k = k
  masked-InOrder w ix ip (some netmask) h k = addr h k

data IsIndex : Option ℕ → Type 0 where
  no_index : IsIndex none
  index : (ix : ℕ) → ix ≢ 0 → IsIndex (some ix)

nonzero-IsIndex : (r : Option ℕ) → IsIndex (nonzero r)
nonzero-IsIndex none = no_index
nonzero-IsIndex (some n) = elim (Bool-cases (n == 0)) [
  | inl q ↦ rw q no_index
  | inr q ↦ rw q (index n (λ e. ground arith))
]

module _ {D X A : Type 0} (nix : Nix D X A) where
  from_ipv6-InOrder :
      (ix : ℕ) (r : Option A) (mask : X) {known : List ℕ} {events : List (NetworkEvent A)}
      → member ix known ≡ true
      → InOrder known events
      → InOrder known (from_ipv6 nix ix r mask ++ events)
  from_ipv6-InOrder ix none mask h k = k
  from_ipv6-InOrder ix (some ip) mask h k = masked-InOrder 128 ix ip (nix.netmask6 mask) h k

  from_ipv4-InOrder :
      (ix : ℕ) (r : Option A) (address mask : X) {known : List ℕ} {events : List (NetworkEvent A)}
      → member ix known ≡ true
      → InOrder known events
      → InOrder known (from_ipv4 nix ix r address mask ++ events)
  from_ipv4-InOrder ix none address mask h k = from_ipv6-InOrder ix (nix.ipv6 address) mask h k
  from_ipv4-InOrder ix (some ip) address mask h k = masked-InOrder 32 ix ip (nix.netmask4 mask) h k

  from_pair-InOrder :
      (ix : ℕ) (address mask : Option X) {known : List ℕ} {events : List (NetworkEvent A)}
      → member ix known ≡ true
      → InOrder known events
      → InOrder known (from_pair nix ix address mask ++ events)
  from_pair-InOrder ix none mask h k = k
  from_pair-InOrder ix (some a) none h k = k
  from_pair-InOrder ix (some a) (some m) h k = from_ipv4-InOrder ix (nix.ipv4 a) a m h k

  interface-InOrder :
      (ix : ℕ) (known : List ℕ) (d : D) (events : List (NetworkEvent A))
      → ix ≢ 0
      → InOrder (if member ix known then known else ix ∷ known) events
      → InOrder known (link_event nix ix known d ++ (address_event nix ix d ++ events))
  interface-InOrder ix known d events n k = elim (Bool-cases (member ix known)) [
    | inl q ↦ rw q (from_pair-InOrder ix (nix.address d) (nix.netmask d) q (rw q at k))
    | inr q ↦
        rw q (
          link n q
            (from_pair-InOrder ix (nix.address d) (nix.netmask d) (ground arith) (rw q at k)))
  ]

  interface_events-InOrder :
      (known : List ℕ) (d : D) {r : Option ℕ} (rest : List ℕ → List (NetworkEvent A))
      → IsIndex r
      → ((seen : List ℕ) → InOrder seen (rest seen))
      → InOrder known (interface_events nix known d r rest)
  interface_events-InOrder known d rest no_index k = k known
  interface_events-InOrder known d rest (index ix n) k = interface-InOrder ix known d _ n (k _)

  pub events_from-InOrder :
      (known : List ℕ) (ds : List D) → InOrder known (events_from nix known ds)
  unfolding events_from
  events_from-InOrder known [] = done
  events_from-InOrder known (d ∷ ds) =
      interface_events-InOrder known d (λ seen. events_from nix seen ds)
        (nonzero-IsIndex (nix.if_nametoindex (name_of nix d))) (λ seen. events_from-InOrder seen ds)
