-- ===== src/UsbHost/Topology/Disconnect.antt =====
-- cotton-usb-host/src/topology.rs: `device_disconnect` ends, and takes away exactly what hangs
-- downstream of the port.
use cotton.Prelude.{
  ℕ, zero, suc, ◌+◌, ◌%◌, ◌≤◌, ◌<◌, ◌≡◌, refl, sym, ◌∙◌, ap, ◌⊎◌, inl, inr, ◌↔◌, length, get_or,
  arith, true, false, ◌||◌, Option, some, ◌==◌, leb, if◌then◌else◌, Bool-cases, ltb, get_or_beyond,
}
use cotton.Prelude.Bits.{bit, bit-lt-two, bit-zero}
use cotton.UsbHost.BitSet.{BitSet}
use cotton.UsbHost.BitSet.Laws as BitSetLaws
use cotton.UsbHost.Topology.{
  Topology, Loop, visit, sweep, settle, device_disconnect, max_hubs, max_ports,
}
use cotton.UsbHost.Topology.Shape.{at, IsValid}
use cotton.UsbHost.Topology.Sweep.{
  Downstream, direct, through, Inv, Quiet, Pass, quiet, grew, remaining, remaining-le-length,
  visit-Visited,
}

module _ (t : Topology) (hub port : ℕ) where
  Pass-join :
      (lo mid hi : ℕ) (s s' s'' : Loop)
      → Pass hub port lo mid s s'
      → Pass hub port mid hi s' s''
      → Pass hub port lo hi s s''
  Pass-join lo mid hi s _ _ (quiet p) (quiet q) = quiet λ i a b. elim (Bool-cases (leb mid i)) [
    | inl h ↦ q i (ground arith) b
    | inr h ↦ p i a (ground arith)
  ]
  Pass-join lo mid hi s _ _ (quiet p) (grew s'' a b) = grew s'' a b
  Pass-join lo mid hi s _ _ (grew s' a b) (quiet q) = grew s' a b
  Pass-join lo mid hi s _ _ (grew s' a b) (grew s'' c d) = grew s'' (omega arith) (omega arith)

  -- A pass keeps the invariant, and either finds nothing to do or makes progress.
  sweep_lem :
      (i left : ℕ) (s : Loop)
      → i + left ≡ 32
      → Inv t hub port s
      → Inv t hub port (sweep hub port i left s) × Pass hub port i 32 s (sweep hub port i left s)
  unfolding sweep
  sweep_lem i zero s e v = (v, quiet (λ j a b. absurd (omega arith)))
  sweep_lem i (suc left) s e v =
      let (v', p) = visit-Visited t hub port i s (omega arith) v in
      let (v'', q) = sweep_lem (suc i) left (visit hub port i s) (omega arith) v' in
      (v'', Pass-join i (suc i) 32 s _ _ p q)

  -- The loop has ended with nothing left to do.
  record Settled (r : Option Loop) : Type 0 where
    out : Loop
    ends : r ≡ some out
    inv : Inv t hub port out
    still : (i : ℕ) → i < 32 → Quiet hub port out i

  settle_step :
      (fuel : ℕ) (s s' : Loop)
      → Inv t hub port s'
      → Pass hub port 0 32 s s'
      → (remaining s'.parent < remaining s.parent → Settled (settle fuel hub port s'))
      → Settled (if s.bitset == s'.bitset then some s' else settle fuel hub port s')
  settle_step fuel s _ v (quiet p) more =
      let e : (s.bitset == s.bitset) ≡ true = ground arith in
      rw e (record { out = s; ends = refl; inv = v; still = λ i l. p i (omega arith) l })
  settle_step fuel s _ v (grew s' a b) more =
      let e : (s.bitset == s'.bitset) ≡ false = ground arith in rw e (more b)

  settle-Settled :
      (fuel : ℕ) (s : Loop)
      → remaining s.parent < fuel
      → Inv t hub port s
      → Settled (settle fuel hub port s)
  unfolding settle
  settle-Settled zero s l v = elim l [ ]
  settle-Settled (suc fuel) s l v =
      let s' : Loop = sweep hub port 0 32 s in
      let (v', p) = sweep_lem 0 32 s refl v in
      settle_step fuel s s' v' p (λ h. settle-Settled fuel s' (omega arith) v')

  -- At the end every device downstream has its bit set.
  complete :
      (s : Loop)
      → Inv t hub port s
      → ((i : ℕ) → i < 32 → Quiet hub port s i)
      → (i : ℕ) → Downstream t hub port i
      → bit i s.bitset ≡ 1
  complete s v still _ (direct i l n a b) =
      ground (arith, v.kept i l, still i l, bit-lt-two i s.bitset)
  complete s v still _ (through i h l n e d) =
      let above = complete s v still h d in
      elim (Bool-cases (bit i s.bitset == 1)) [
        | inl q ↦ ground arith
        | inr q ↦
            let k : get_or s.parent i 0 ≡ at t i = v.kept i l ∙ rw q in
            elim (still i l) [
              | inl z ↦ absurd (n (sym k ∙ z))
              | inr (_, z) ↦
                  ground (arith, sym (ap (λ x. bit x s.bitset) (ap (λ (x : ℕ). x % 16) k ∙ e)) ∙ z)
            ]
      ]

-- The answer names exactly the devices downstream of the port, and they leave the table.
pub record Detaches (t : Topology) (hub port : ℕ) (r : Option (BitSet × Topology)) : Type 0 where
  pub gone : BitSet
  pub left : Topology
  pub ends : r ≡ some (gone, left)
  pub gone_valid : BitSetLaws.IsValid gone
  pub exact : (i : ℕ) → i < 32 → (BitSetLaws.view gone i ≡ true) ↔ Downstream t hub port i
  pub size : length left.parent ≡ 32
  pub kept : (i : ℕ) → i < 32 → at left i ≡ (if BitSetLaws.view gone i then 0 else at t i)

Inv-start :
    (t : Topology) (hub port : ℕ)
    → IsValid t
    → Inv t hub port (record { bitset = 0; parent = t.parent })
Inv-start t hub port v = record {
  fits = omega arith;
  size = v.size;
  sound = λ i b. absurd (omega (arith, bit-zero i));
  kept = λ i l. ground (arith, bit-zero i);
}

-- On a well-formed table and for a hub and port below 16, `device_disconnect` ends within its fuel.
-- It reports exactly the devices downstream of that port, clears their entries, and leaves every
-- other entry as it was.
pub device_disconnect-Detaches :
    (t : Topology)
    → IsValid t
    → (hub port : ℕ) → hub < 16
    → port < 16
    → Detaches t hub port (device_disconnect t hub port)
unfolding device_disconnect
device_disconnect-Detaches t v hub port a b =
    let start : Loop = record { bitset = 0; parent = t.parent } in
    let s =
      settle-Settled t hub port 33 start (omega (arith, remaining-le-length t.parent, v.size))
        (Inv-start t hub port v) in
    let inside : (leb max_hubs hub || leb max_ports port) ≡ false = ground arith in
    record {
      gone = record { bits = s.out.bitset };
      left = record { parent = s.out.parent };
      ends = rw (inside, s.ends);
      gone_valid = s.inv.fits;
      exact = λ i l. (
        (λ e. s.inv.sound i (ground arith)),
        (λ d. ground (arith, complete t hub port s.out s.inv s.still i d)),
      );
      size = s.inv.size;
      kept = λ i l. s.inv.kept i l;
    }

pub device_disconnect_outside :
    (t : Topology) (hub port : ℕ)
    → (16 ≤ hub) ⊎ (16 ≤ port)
    → device_disconnect t hub port ≡ some (record { bits = 0 }, t)
unfolding device_disconnect
device_disconnect_outside t hub port h =
    let e : (leb max_hubs hub || leb max_ports port) ≡ true = ground arith in rw e

module _ (t : Topology) (hub port : ℕ) (r : Option (BitSet × Topology))
    (d : Detaches t hub port r) where
  at-left : (i : ℕ) → (at d.left i ≡ 0) ⊎ (at d.left i ≡ at t i)
  at-left i = elim (Bool-cases (ltb i 32)) [
    | inl q ↦ ground (arith, d.kept i (ground arith))
    | inr q ↦ inl (get_or_beyond d.left.parent i 0 (ground (arith, d.size)))
  ]

  -- What `device_disconnect` leaves is well-formed.
  pub Detaches-IsValid : IsValid t → IsValid d.left
  Detaches-IsValid v = record {
    size = d.size;
    bytes = λ i. ground (arith, at-left i, v.bytes i);
    no_zero = ground (arith, at-left 0, v.no_zero);
    apart = λ i j n e. ground (arith, at-left i, at-left j, v.apart i j);
  }
