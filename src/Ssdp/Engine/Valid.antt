-- ===== src/Ssdp/Engine/Valid.antt =====
-- cotton-ssdp/src/engine.rs: the addresses of the interfaces, from one network event to the next.
use cotton.Prelude.{
  ℕ, ◌≡◌, subst, Bool, true, false, Bool-cases, inl, inr, Option, none, some, [], ◌∷◌, ◌++◌, ltb,
  arith,
}
use cotton.Prelude.Result.{Result, ok, err}
use cotton.Netif as Netif
use cotton.Netif.{NetworkEvent, new_link, del_link, new_addr, del_addr}
use cotton.Ssdp.BTreeMap.{get, insert}
use cotton.Ssdp.BTreeMap.Laws.{
  Every, insert-Every, remove-Every, OfFound, nothing, found, get-Every,
}
use cotton.Ssdp.Udp.{Addresses, TargetedSend, Multicast}
use cotton.Ssdp.Engine.{Interface, Engine}
use cotton.Ssdp.Engine.Network.{
  holds, swap_remove, without, del_addr_at, on_del_addr_event, left, on_del_link_event, new_addr_at,
  on_new_addr_event, joined, link_at, on_new_link_event, on_network_event,
}
use cotton.Ssdp.Engine.Ips as Ips
use cotton.Ssdp.Engine.Ips.{
  IsEq, Distinct, Finds, missing, position-Finds, holds_push, distinct_push, swap_remove_lem,
}

module _ {A S : Type 0} (addrs : Addresses A S) where
  -- All the addresses of an interface are those of IPv4, and no address stands twice.
  pub record IsInterface (v : Interface A) : Type 0 where
    pub four : (a : A) → holds addrs.same_ip a v.ips ≡ true → addrs.is_ipv4 a ≡ true
    pub distinct : Distinct addrs.same_ip v.ips

  pub record IsEngine {I CB : Type 0} (e : Engine A S I CB) : Type 0 where
    pub each : Every IsInterface e.interfaces

  fresh-IsInterface : (b : Bool) → IsInterface (record { ips = []; up = b })
  unfolding holds
  fresh-IsInterface b = record { four = λ a h. ground arith; distinct = Ips.empty }

  up-IsInterface : (v : Interface A) (b : Bool) → IsInterface v → IsInterface (record v { up = b })
  up-IsInterface v b i = record { four = i.four; distinct = i.distinct }

module _ {A S : Type 0} (addrs : Addresses A S) (eq : IsEq addrs.same_ip) where
  push-IsInterface :
      (v : Interface A) (addr : A)
      → IsInterface addrs v
      → addrs.is_ipv4 addr ≡ true
      → holds addrs.same_ip addr v.ips ≡ false
      → IsInterface addrs (record v { ips = v.ips ++ addr ∷ [] })
  push-IsInterface v addr i f h = record {
    four = λ a g. elim (Bool-cases (addrs.same_ip addr a)) [
      | inl q ↦ subst (λ x. addrs.is_ipv4 x ≡ true) (eq.sound addr a q) f
      | inr q ↦ i.four a (ground (arith, holds_push addrs.same_ip a addr v.ips))
    ];
    distinct = distinct_push eq addr h i.distinct;
  }

  removed-IsInterface :
      {addr : A} {n : ℕ} (v : Interface A)
      → IsInterface addrs v
      → Ips.At addrs.same_ip addr v.ips n
      → IsInterface addrs (record v { ips = swap_remove n v.ips })
  removed-IsInterface v i at =
      let (d, same) = swap_remove_lem eq at i.distinct in
      record { four = λ a g. i.four a (ground (arith, same a)); distinct = d }

  module _ {I CB : Type 0} where
    put-IsEngine :
        (ix : ℕ) (v : Interface A) (e : Engine A S I CB)
        → IsInterface addrs v
        → IsEngine addrs e
        → IsEngine addrs (record e { interfaces = insert ltb ix v e.interfaces })
    put-IsEngine ix v e i h = record { each = insert-Every ltb ix v i h.each }

    without-IsEngine :
        (ix : ℕ) (addr : A) (v : Interface A) (r : Option ℕ) (e : Engine A S I CB)
        → IsInterface addrs v
        → Finds addrs.same_ip addr v.ips r
        → IsEngine addrs e
        → IsEngine addrs (without addrs ix v r e)
    without-IsEngine ix addr v _ e i (missing h) g = g
    without-IsEngine ix addr v _ e i (Ips.found n at) g =
        put-IsEngine ix _ e (removed-IsInterface v i at) g

    del_addr_at-IsEngine :
        (ix : ℕ) (addr : A) (r : Option (Interface A)) (e : Engine A S I CB)
        → OfFound (IsInterface addrs) r
        → IsEngine addrs e
        → IsEngine addrs (del_addr_at addrs ix addr r e)
    del_addr_at-IsEngine ix addr _ e nothing g = g
    del_addr_at-IsEngine ix addr _ e (found v i) g =
        without-IsEngine ix addr v _ e i (position-Finds addrs.same_ip addr v.ips) g

    new_addr_at-IsEngine :
        {K : Type 0} (socket : TargetedSend A S K) (ix : ℕ) (addr : A) (r : Option (Interface A))
        (e : Engine A S I CB) (k : K)
        → addrs.is_ipv4 addr ≡ true
        → OfFound (IsInterface addrs) r
        → IsEngine addrs e
        → IsEngine addrs (new_addr_at addrs socket ix addr r e k).0
    new_addr_at-IsEngine socket ix addr _ e k f nothing g = g
    new_addr_at-IsEngine socket ix addr _ e k f (found v i) g =
        elim (Bool-cases (holds addrs.same_ip addr v.ips)) [
          | inl q ↦ rw q g
          | inr q ↦ rw q (put-IsEngine ix _ e (push-IsInterface v addr i f q) g)
        ]

    left-IsEngine :
        {E M : Type 0} (net : Multicast A E M) (e : Engine A S I CB) (r : Option (Interface A))
        (ix : ℕ) (m : M)
        → IsEngine addrs e
        → IsEngine addrs (left addrs net e r ix m).1
    left-IsEngine net e none ix m g = g
    left-IsEngine net e (some v) ix m g = record { each = remove-Every ltb ix g.each }

    module _ {K E M : Type 0} (socket : TargetedSend A S K) (net : Multicast A E M) where
      joined-IsEngine :
          (ix : ℕ) (b : Bool) (e : Engine A S I CB) (k : K) (r : Result E (Unit {0}) × M)
          → IsEngine addrs e
          → IsEngine addrs (joined addrs socket net ix b e k r).1
      joined-IsEngine ix b e k (ok u, m) g = put-IsEngine ix _ e (fresh-IsInterface addrs b) g
      joined-IsEngine ix b e k (err x, m) g = g

      link_at-IsEngine :
          (ix : ℕ) (b : Bool) (r : Option (Interface A)) (e : Engine A S I CB) (k : K) (m : M)
          → OfFound (IsInterface addrs) r
          → IsEngine addrs e
          → IsEngine addrs (link_at addrs socket net ix b r e k m).1
      link_at-IsEngine ix b _ e k m nothing g =
          joined-IsEngine ix b e k (net.join_multicast_group addrs.group_ip ix m) g
      link_at-IsEngine ix b _ e k m (found v i) g =
          put-IsEngine ix _ e (up-IsInterface addrs v b i) g

      -- After every network event, also one that fails, each interface has addresses of IPv4 only
      -- and none of them twice, if that was so before.
      pub on_network_event-IsEngine :
          (event : NetworkEvent A) (e : Engine A S I CB) (k : K) (m : M)
          → IsEngine addrs e
          → IsEngine addrs (on_network_event addrs socket net event e k m).1
      unfolding on_network_event on_new_link_event on_del_link_event on_new_addr_event
          on_del_addr_event
      on_network_event-IsEngine (new_link ix name flags) e k m g =
          elim (Bool-cases (Netif.contains flags Netif.multicast)) [
            | inl q ↦ rw q (
                link_at-IsEngine ix (Netif.contains flags (Netif.union Netif.running Netif.up)) _ e
                  k m (get-Every ltb ix g.each) g)
            | inr q ↦ rw q g
          ]
      on_network_event-IsEngine (del_link ix) e k m g =
          left-IsEngine net e (get ltb ix e.interfaces) ix m g
      on_network_event-IsEngine (new_addr ix addr prefix) e k m g =
          elim (Bool-cases (addrs.is_ipv4 addr)) [
            | inl q ↦ rw q (new_addr_at-IsEngine socket ix addr _ e k q (get-Every ltb ix g.each) g)
            | inr q ↦ rw q g
          ]
      on_network_event-IsEngine (del_addr ix addr prefix) e k m g =
          del_addr_at-IsEngine ix addr _ e (get-Every ltb ix g.each) g
