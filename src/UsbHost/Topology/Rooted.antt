-- ===== src/UsbHost/Topology/Rooted.antt =====
-- cotton-usb-host/src/topology.rs: every device hangs on the root, so the root port can be connected.
use cotton.Prelude.{
  ℕ, ◌<◌, ◌≡◌, refl, sym, ap, subst, ◌∙◌, ◌≢◌, ◌⊎◌, inl, inr, Bool, true, false, Option, some,
  Bool-cases, set, get_or-set_self, get_or-set_ne, get_or-replicate, leb, ◌==◌, ◌||◌, arith,
}
use cotton.UsbHost.BitSet.{BitSet}
use cotton.UsbHost.BitSet.Laws as BitSetLaws
use cotton.UsbHost.Topology.{Topology, new, device_connect, device_disconnect}
use cotton.UsbHost.Topology.Shape.{at, IsValid, new-IsValid, present-lt}
use cotton.UsbHost.Topology.Sweep.{Downstream, direct, through}
use cotton.UsbHost.Topology.Connect.{
  Connects, refused, known, given, full, entry_of, device_connect-Connects, device_connect-IsValid,
}
use cotton.UsbHost.Topology.Disconnect.{
  Detaches, device_disconnect-Detaches, device_disconnect_outside, Detaches-IsValid,
}

-- Every device that is present is downstream of the root port.
abbrev pub IsRooted : Topology → Type 0
IsRooted t = (i : ℕ) → at t i ≢ 0 → Downstream t 0 1 i

Downstream-lt : (t : Topology) (hub port i : ℕ) → Downstream t hub port i → i < 32
Downstream-lt t hub port _ (direct i l n a b) = l
Downstream-lt t hub port _ (through i h l n e d) = l

Downstream-present : (t : Topology) (hub port i : ℕ) → Downstream t hub port i → at t i ≢ 0
Downstream-present t hub port _ (direct i l n a b) = n
Downstream-present t hub port _ (through i h l n e d) = n

-- A device downstream of the root port means a device on the root port.
on_root : (t : Topology) (i : ℕ) → Downstream t 0 1 i → (j : ℕ) × (j < 32) × (at t j ≡ entry_of 0 1)
on_root t _ (direct i l n a b) = (i, l, omega arith)
on_root t _ (through i h l n e d) = on_root t h d

-- So on a well-formed table whose devices all hang on the root, connecting the root port gives an address.
root_succeeds :
    (t : Topology) (is_hub : Bool) (r : Option ℕ × Topology)
    → IsRooted t
    → Connects t 0 1 is_hub r
    → (i : ℕ) × (r.0 ≡ some i)
root_succeeds t is_hub _ rooted (refused q) = absurd (omega arith)
root_succeeds t is_hub _ rooted (known i a b l e) = (i, refl)
root_succeeds t is_hub _ rooted (given i a b fresh l l' free lo hi) = (i, refl)
root_succeeds t true _ rooted (full a b fresh hubs others) =
    let (j, l, e) = on_root t 1 (rooted 1 (hubs refl 1 (omega arith) (omega arith))) in
    absurd (fresh j l e)
root_succeeds t false _ rooted (full a b fresh hubs others) =
    let (j, l, e) = on_root t 1 (rooted 1 (others refl 1 (omega arith) (omega arith))) in
    absurd (fresh j l e)

-- What a disconnection leaves still hangs on the root.
module _ (t : Topology) (hub port : ℕ) (r : Option (BitSet × Topology))
    (d : Detaches t hub port r) where
  stays : (i : ℕ) → Downstream t 0 1 i → BitSetLaws.view d.gone i ≡ false → Downstream d.left 0 1 i
  stays _ (direct i l n a b) v =
      let e : at d.left i ≡ at t i = d.kept i l ∙ rw v refl in
      direct i l (λ z. n (sym e ∙ z)) (rw e a) (rw e b)
  stays _ (through i h l n e u) v =
      let k : at d.left i ≡ at t i = d.kept i l ∙ rw v refl in
      elim (Bool-cases (BitSetLaws.view d.gone h)) [
        | inl g ↦
            let lost =
              (d.exact i l).1 (through i h l n e ((d.exact h (Downstream-lt t 0 1 h u)).0 g)) in
            absurd cc
        | inr g ↦ through i h l (λ z. n (sym k ∙ z)) (rw k e) (stays h u g)
      ]

  left-IsRooted : IsValid t → IsRooted t → IsRooted d.left
  left-IsRooted v rooted i n =
      let l : i < 32 = present-lt d.left i (Detaches-IsValid t hub port r d v) n in
      elim (Bool-cases (BitSetLaws.view d.gone i)) [
        | inl g ↦ absurd (n (d.kept i l ∙ rw g refl))
        | inr g ↦
            let e : at d.left i ≡ at t i = d.kept i l ∙ rw g refl in
            stays i (rooted i (λ z. n (e ∙ z))) g
      ]

-- A device that is given a place on the root port, or on a hub that is present, hangs on the root.
module _ (t : Topology) (v : IsValid t) (hub port i : ℕ) (hub_fits : hub < 16)
    (port_fits : port < 16) (i_fits : i < 32) (free : at t i ≡ 0) where
  abbrev added : Topology
  added = record { parent = set t.parent i (entry_of hub port) }

  at-added : (j : ℕ) → at t j ≢ 0 → at added j ≡ at t j
  at-added j n = get_or-set_ne t.parent i j (entry_of hub port) 0 (λ e. n (ap (at t) e ∙ free))

  at-added_self : at added i ≡ entry_of hub port
  at-added_self = get_or-set_self t.parent i (entry_of hub port) 0 (omega (arith, v.size))

  remains : (j : ℕ) → Downstream t 0 1 j → Downstream added 0 1 j
  remains _ (direct j l n a b) =
      let e = at-added j n in direct j l (λ z. n (sym e ∙ z)) (rw e a) (rw e b)
  remains _ (through j h l n e u) =
      let k = at-added j n in through j h l (λ z. n (sym k ∙ z)) (rw k e) (remains h u)

  newcomer :
      IsRooted t
      → ((hub ≡ 0) × (port ≡ 1)) ⊎ (at t hub ≢ 0)
      → at added i ≢ 0
      → Downstream added 0 1 i
  newcomer rooted (inl (a, b)) n =
      let e = at-added_self in direct i i_fits n (omega arith) (omega arith)
  newcomer rooted (inr there) n =
      let e = at-added_self in through i hub i_fits n (omega arith) (remains hub (rooted hub there))

  added-IsRooted : IsRooted t → ((hub ≡ 0) × (port ≡ 1)) ⊎ (at t hub ≢ 0) → IsRooted added
  added-IsRooted rooted place j n = elim (Bool-cases (j == i)) [
    | inl q ↦
        let e : i ≡ j = ground arith in
        subst (λ k. Downstream added 0 1 k) e
          (newcomer rooted place (λ z. n (ap (at added) (sym e) ∙ z)))
    | inr q ↦
        let e : at added j ≡ at t j =
          get_or-set_ne t.parent i j (entry_of hub port) 0 (λ p. ground arith) in
        remains j (rooted j (λ z. n (e ∙ z)))
  ]

-- The tables of a bus whose devices are connected on the root port or on a hub that is present, and
-- are disconnected anywhere.
pub data Reach : Topology → Type 0 where
  started : Reach new
  connected :
      (t : Topology) (hub port : ℕ) (is_hub : Bool)
      → Reach t
      → ((hub ≡ 0) × (port ≡ 1)) ⊎ (at t hub ≢ 0)
      → Reach (device_connect t hub port is_hub).1
  disconnected :
      (t left : Topology) (hub port : ℕ) (gone : BitSet)
      → Reach t
      → device_disconnect t hub port ≡ some (gone, left)
      → Reach left

connected-IsRooted :
    (t : Topology) (hub port : ℕ) (is_hub : Bool) (r : Option ℕ × Topology)
    → IsValid t
    → IsRooted t
    → ((hub ≡ 0) × (port ≡ 1)) ⊎ (at t hub ≢ 0)
    → Connects t hub port is_hub r
    → IsRooted r.1
connected-IsRooted t hub port is_hub _ v rooted place (refused q) = rooted
connected-IsRooted t hub port is_hub _ v rooted place (known i a b l e) = rooted
connected-IsRooted t hub port is_hub _ v rooted place (given i a b fresh l l' free lo hi) =
    added-IsRooted t v hub port i a b l' free rooted place
connected-IsRooted t hub port is_hub _ v rooted place (full a b fresh hubs others) = rooted

disconnected-Rooted :
    (t left : Topology) (hub port : ℕ) (gone : BitSet)
    → IsValid t
    → IsRooted t
    → device_disconnect t hub port ≡ some (gone, left)
    → IsValid left × IsRooted left
disconnected-Rooted t left hub port gone v rooted e =
    elim (Bool-cases (leb 16 hub || leb 16 port)) [
      | inl q ↦
          let same = device_disconnect_outside t hub port (ground arith) in
          let p : t ≡ left = cc in (subst IsValid p v, subst IsRooted p rooted)
      | inr q ↦
          let d = device_disconnect-Detaches t v hub port (ground arith) (ground arith) in
          let f = d.ends in
          let p : d.left ≡ left = cc in
          (
            subst IsValid p (Detaches-IsValid t hub port _ d v),
            subst IsRooted p (left-IsRooted t hub port _ d v rooted),
          )
    ]

new-IsRooted : IsRooted new
unfolding new
new-IsRooted i n = absurd (n (get_or-replicate {A = ℕ} 32 i 0))

pub Reach-Rooted : (t : Topology) → Reach t → IsValid t × IsRooted t
Reach-Rooted _ started = (new-IsValid, new-IsRooted)
Reach-Rooted _ (connected t hub port is_hub r place) =
    let (v, rooted) = Reach-Rooted t r in
    (
      device_connect-IsValid t hub port is_hub v,
      connected-IsRooted t hub port is_hub (device_connect t hub port is_hub) v rooted place
          (device_connect-Connects t v hub port is_hub),
    )
Reach-Rooted _ (disconnected t left hub port gone r e) =
    let (v, rooted) = Reach-Rooted t r in disconnected-Rooted t left hub port gone v rooted e

-- On every table that a bus can come to, by connections on the root port and on hubs that are present
-- and by disconnections anywhere, a connection on the root port is given an address, hub or not.
pub device_connect_root :
    (t : Topology) (is_hub : Bool) → Reach t → (i : ℕ) × ((device_connect t 0 1 is_hub).0 ≡ some i)
device_connect_root t is_hub r =
    let (v, rooted) = Reach-Rooted t r in
    root_succeeds t is_hub (device_connect t 0 1 is_hub) rooted
      (device_connect-Connects t v 0 1 is_hub)
