-- ===== src/Ssdp/Engine/Removal.antt =====
-- cotton-ssdp/src/engine.rs: on_del_addr_event, for an interface that is there.
use cotton.Prelude.{
  ℕ, ◌≡◌, refl, subst, false, not, ◌&&◌, Bool-cases, inl, inr, Option, some, ltb, arith,
}
use cotton.Ssdp.BTreeMap.{get}
use cotton.Ssdp.BTreeMap.Laws.{get-insert}
use cotton.Ssdp.Udp.{Addresses}
use cotton.Ssdp.Engine.{Interface, Engine}
use cotton.Ssdp.Engine.Network.{holds, swap_remove, without, on_del_addr_event}
use cotton.Ssdp.Engine.Ips as Ips
use cotton.Ssdp.Engine.Ips.{IsEq, Finds, missing, position-Finds, swap_remove_lem}
use cotton.Ssdp.Engine.Valid.{IsInterface}

module _ {A S I CB : Type 0} (addrs : Addresses A S) where
  -- The interface is as before, with every address but one.
  pub record Lacks (ix : ℕ) (addr : A) (v : Interface A) (e : Engine A S I CB) (v' : Interface A)
      : Type 0 where
    pub there : get ltb ix e.interfaces ≡ some v'
    pub up : v'.up ≡ v.up
    pub others :
        (b : A)
        → holds addrs.same_ip b v'.ips ≡ (not (addrs.same_ip addr b) && holds addrs.same_ip b v.ips)

module _ {A S : Type 0} (addrs : Addresses A S) (eq : IsEq addrs.same_ip) where
  absent :
      (addr b : A) (v : Interface A)
      → holds addrs.same_ip addr v.ips ≡ false
      → holds addrs.same_ip b v.ips ≡ (not (addrs.same_ip addr b) && holds addrs.same_ip b v.ips)
  absent addr b v h = elim (Bool-cases (addrs.same_ip addr b)) [
    | inl q ↦ rw q (subst (λ x. holds addrs.same_ip x v.ips ≡ false) (eq.sound addr b q) h)
    | inr q ↦ rw q refl
  ]

module _ {A S I CB : Type 0} (addrs : Addresses A S) (eq : IsEq addrs.same_ip) where
  without-Lacks :
      (ix : ℕ) (addr : A) (v : Interface A) (r : Option ℕ) (e : Engine A S I CB)
      → get ltb ix e.interfaces ≡ some v
      → IsInterface addrs v
      → Finds addrs.same_ip addr v.ips r
      → (v' : Interface A) × Lacks addrs ix addr v (without addrs ix v r e) v'
  without-Lacks ix addr v _ e h i (missing q) =
      (v, record { there = h; up = refl; others = λ b. absent addrs eq addr b v q })
  without-Lacks ix addr v _ e h i (Ips.found n at) = (
    record v { ips = swap_remove n v.ips },
    record {
      there = get-insert ltb ix _ e.interfaces (ground arith);
      up = refl;
      others = (swap_remove_lem eq at i.distinct).1;
    },
  )

  -- Of an interface whose addresses are distinct, on_del_addr_event leaves the other addresses,
  -- and the interface up or down as it was.
  pub on_del_addr_event-Lacks :
      (ix : ℕ) (addr : A) (v : Interface A) (e : Engine A S I CB)
      → get ltb ix e.interfaces ≡ some v
      → IsInterface addrs v
      → (v' : Interface A) × Lacks addrs ix addr v (on_del_addr_event addrs ix addr e) v'
  unfolding on_del_addr_event
  on_del_addr_event-Lacks ix addr v e h i =
      rw h (without-Lacks ix addr v _ e h i (position-Finds addrs.same_ip addr v.ips))
