-- ===== src/UsbHost/Bus/Hub/Ports.antt =====
-- cotton-usb-host/src/usb_bus.rs: the ports that a packet of a hub tells of.
use cotton.Prelude.{
  ℕ, zero, suc, ◌*◌, ◌/◌, ◌^◌, ◌<◌, ◌≤◌, ◌≡◌, Bool, false, Bool-cases, inl, inr, List, [], ◌∷◌,
  get_or, ltb, arith,
}
use cotton.Prelude.Bits.{bit, bit-zero, bit_or-lt}
use cotton.UsbHost.BitSet.{BitSet, iter}
use cotton.UsbHost.BitSet.Laws.{view}
use cotton.UsbHost.BitSet.Iter.{ascending, iter_lem}
use cotton.UsbHost.HostController.{InterruptPacket}
use cotton.UsbHost.Bus.Hub.Packet.{port_bitmap}

-- Every port of a list has a number below 16.
pub data ArePorts : List ℕ → Type 0 where
  none_left : ArePorts []
  next : {port : ℕ} {ports : List ℕ} → port < 16 → ArePorts ports → ArePorts (port ∷ ports)

bit_beyond : (w n x : ℕ) → x < 2 ^ w → w ≤ n → bit n x ≡ 0
bit_beyond zero n x h l = let e : x ≡ 0 = omega arith in rw e (bit-zero n)
bit_beyond (suc w) zero x h l = elim l [ ]
bit_beyond (suc w) (suc n) x h l = bit_beyond w n (x / 2) (omega arith) (omega arith)

ascending-ArePorts :
    (f : ℕ → Bool) (k w : ℕ) → ((m : ℕ) → 16 ≤ m → f m ≡ false) → ArePorts (ascending f k w)
unfolding ascending
ascending-ArePorts f k zero h = none_left
ascending-ArePorts f k (suc w) h = elim (Bool-cases (f k)) [
  | inl q ↦ rw q (elim (Bool-cases (ltb k 16)) [
    | inl l ↦ next (ground arith) (ascending-ArePorts f (suc k) w h)
    | inr g ↦ ground (arith, h k (ground arith))
  ])
  | inr q ↦ rw q (ascending-ArePorts f (suc k) w h)
]

pub iter-ArePorts : (s : BitSet) → s.bits < 2 ^ 16 → ArePorts (iter s)
iter-ArePorts s h =
    rw (iter_lem s (omega arith))
      (ascending-ArePorts (view s) 0 32 (λ m l. ground (arith, bit_beyond 16 m s.bits h l)))

-- The bytes of a packet that count are bytes.
pub record IsPacket (p : InterruptPacket) : Type 0 where
  pub first : get_or p.bytes 0 0 < 256
  pub second : get_or p.bytes 1 0 < 256

pub port_bitmap-lt : (p : InterruptPacket) → IsPacket p → (port_bitmap p).bits < 2 ^ 16
port_bitmap-lt p i = elim (Bool-cases (ltb 1 p.size)) [
  | inl q ↦ rw q (
      bit_or-lt 16 (get_or p.bytes 0 0) (get_or p.bytes 1 0 * 2 ^ 8) (omega (arith, i.first))
        (omega (arith, i.second)))
  | inr q ↦ rw q (omega (arith, i.first))
]
