-- ===== src/Ssdp/Engine/Network.antt =====
-- cotton-ssdp/src/engine.rs: changes of the network interfaces and of their addresses.
use cotton.Prelude.{
  ℕ, zero, suc, Bool, false, not, ◌&&◌, ◌||◌, Option, none, some, List, [], ◌∷◌, ◌++◌, ltb,
  if◌then◌else◌,
}
use cotton.Prelude.Result.{Result, ok, err}
use cotton.Netif as Netif
use cotton.Netif.{NetworkEvent, new_link, del_link, new_addr, del_addr}
use cotton.Ssdp.BTreeMap.{get, insert, remove}
use cotton.Ssdp.Udp.{Addresses, TargetedSend, Multicast}
use cotton.Ssdp.Engine.{Interface, Engine, send_all}

module _ {A : Type 0} (same_ip : A → A → Bool) where
  -- `v.ips.contains(addr)`
  unfoldable pub holds : A → List A → Bool
  holds addr [] = false
  holds addr (a ∷ ips) = same_ip a addr || holds addr ips

  -- `iter().position(|a| a == addr)`
  unfoldable pub position : A → List A → Option ℕ
  position addr [] = none
  position addr (a ∷ ips) =
      if same_ip a addr
      then some 0
      else elim (position addr ips) [ none ↦ none | some n ↦ some (suc n) ]

-- `swap_remove`: the last address takes the place of the one that goes.
abbrev pub all_but_last : {A : Type 0} → List A → List A
all_but_last [] = []
all_but_last (a ∷ []) = []
all_but_last (a ∷ b ∷ ips) = a ∷ all_but_last (b ∷ ips)

abbrev pub last_of : {A : Type 0} → A → List A → A
last_of a [] = a
last_of a (b ∷ ips) = last_of b ips

unfoldable pub swap_remove : {A : Type 0} → ℕ → List A → List A
swap_remove n [] = []
swap_remove zero (a ∷ []) = []
swap_remove zero (a ∷ b ∷ ips) = last_of b ips ∷ all_but_last (b ∷ ips)
swap_remove (suc n) (a ∷ ips) = a ∷ swap_remove n ips

module _ {A S I CB : Type 0} (addrs : Addresses A S) where
  abbrev pub without : ℕ → Interface A → Option ℕ → Engine A S I CB → Engine A S I CB
  without ix v none e = e
  without ix v (some n) e = record e {
    interfaces = insert ltb ix (record v { ips = swap_remove n v.ips }) e.interfaces;
  }

  abbrev pub del_addr_at : ℕ → A → Option (Interface A) → Engine A S I CB → Engine A S I CB
  del_addr_at ix addr none e = e
  del_addr_at ix addr (some v) e = without ix v (position addrs.same_ip addr v.ips) e

  unfoldable pub on_del_addr_event : ℕ → A → Engine A S I CB → Engine A S I CB
  on_del_addr_event ix addr e = del_addr_at ix addr (get ltb ix e.interfaces) e

module _ {A S I CB E M : Type 0} (addrs : Addresses A S) (net : Multicast A E M) where
  abbrev pub left :
      Engine A S I CB → Option (Interface A) → ℕ → M → Result E (Unit {0}) × Engine A S I CB × M
  left e none ix m = (ok tt, e, m)
  left e (some v) ix m =
      let r = net.leave_multicast_group addrs.group_ip ix m in
      (r.0, record e { interfaces = remove ltb ix e.interfaces }, r.1)

  -- The interface is gone also where leaving the group fails.
  unfoldable pub on_del_link_event :
      ℕ → Engine A S I CB → M → Result E (Unit {0}) × Engine A S I CB × M
  on_del_link_event ix e m = left e (get ltb ix e.interfaces) ix m

module _ {A S I CB K : Type 0} (addrs : Addresses A S) (socket : TargetedSend A S K) where
  abbrev pub new_addr_at : ℕ → A → Option (Interface A) → Engine A S I CB → K → Engine A S I CB × K
  new_addr_at ix addr none e k = (e, k)
  new_addr_at ix addr (some v) e k = if holds addrs.same_ip addr v.ips then (e, k) else (
    record e { interfaces = insert ltb ix (record v { ips = v.ips ++ addr ∷ [] }) e.interfaces },
    (if v.up then send_all addrs socket e (addr ∷ []) k else k),
  )

  unfoldable pub on_new_addr_event : ℕ → A → Engine A S I CB → K → Engine A S I CB × K
  on_new_addr_event ix addr e k =
      if addrs.is_ipv4 addr then new_addr_at ix addr (get ltb ix e.interfaces) e k else (e, k)

module _ {A S I CB K E M : Type 0} (addrs : Addresses A S) (socket : TargetedSend A S K)
    (net : Multicast A E M) where
  -- A new interface is kept only where the group could be joined.
  abbrev pub joined :
      ℕ
      → Bool
      → Engine A S I CB
      → K
      → Result E (Unit {0}) × M
      → Result E (Unit {0}) × Engine A S I CB × K × M
  joined ix up e k (ok u, m) = (
    ok tt,
    record e { interfaces = insert ltb ix (record { ips = []; up = up }) e.interfaces },
    k,
    m,
  )
  joined ix up e k (err x, m) = (err x, e, k, m)

  abbrev pub link_at :
      ℕ
      → Bool
      → Option (Interface A)
      → Engine A S I CB
      → K
      → M
      → Result E (Unit {0}) × Engine A S I CB × K × M
  link_at ix up none e k m = joined ix up e k (net.join_multicast_group addrs.group_ip ix m)
  link_at ix up (some v) e k m = (
    ok tt,
    record e { interfaces = insert ltb ix (record v { up = up }) e.interfaces },
    (if up && not v.up then send_all addrs socket e v.ips k else k),
    m,
  )

  unfoldable pub on_new_link_event :
      ℕ → ℕ → Engine A S I CB → K → M → Result E (Unit {0}) × Engine A S I CB × K × M
  on_new_link_event ix flags e k m =
      if Netif.contains flags Netif.multicast
      then link_at ix (Netif.contains flags (Netif.union Netif.running Netif.up))
          (get ltb ix e.interfaces) e k m
      else (ok tt, e, k, m)

  unfoldable pub on_network_event :
      NetworkEvent A → Engine A S I CB → K → M → Result E (Unit {0}) × Engine A S I CB × K × M
  on_network_event (new_link ix name flags) e k m = on_new_link_event ix flags e k m
  on_network_event (del_link ix) e k m =
      let r = on_del_link_event addrs net ix e m in (r.0, r.1, k, r.2)
  on_network_event (new_addr ix addr prefix) e k m =
      let r = on_new_addr_event addrs socket ix addr e k in (ok tt, r.0, r.1, m)
  on_network_event (del_addr ix addr prefix) e k m =
      (ok tt, on_del_addr_event addrs ix addr e, k, m)
