-- ===== src/UsbHost/Rp2040/Receiving/Invariant.antt =====
-- cotton-usb-host/src/host/rp2040.rs: what holds of an `In` transfer, its buffers and the chip.
use cotton.Prelude.{
  ℕ, ◌+◌, ◌≤◌, ◌≡◌, refl, ap, ◌∙◌, min, Bool, true, false, not, ◌++◌, length, append_assoc, arith,
}
use cotton.Prelude.Bytes.{Bytes}
use cotton.UsbHost.Rp2040.Dpram.{Dpram, base, load, store}
use cotton.UsbHost.Rp2040.Dpram.Laws.{length-store, load-store_self}
use cotton.UsbHost.Rp2040.Packetiser.{InPacketiser}
use cotton.UsbHost.Rp2040.Depacketiser.{InDepacketiser}
use cotton.UsbHost.Rp2040.Sending.{index, at}
use cotton.UsbHost.Rp2040.Sending.Fill.{load-store_other}
use cotton.UsbHost.Rp2040.Receiving.{arrived, payload}
use cotton.UsbHost.Rp2040.Receiving.Stages.{Stages, arrived-Stages, waiting, waiting-le}
use cotton.UsbHost.Rp2040.Receiving.Store.{filled}

-- All that came is stored, up to the size of the transfer, or waits in the two buffers.
pub data Staged (k size : ℕ) (orig : Bytes) (p : InPacketiser) (q : InDepacketiser) (n : ℕ)
    (d : Dpram) (received : Bytes) (turn : Bool) : Type 0 where
  staged :
      (came xs : Bytes)
      → (w : Stages d q.next_retire turn p.next_prep n xs) → waiting w ≤ k
      → received ≡ came ++ xs
      → q.offset ≡ min size (length came)
      → q.buf ≡ filled q.offset came orig
      → Staged k size orig p q n d received turn

-- The transfer takes up to `size` bytes to a buffer that held `orig`; `n` buffers are in flight, of
-- which at most `k` wait to be retired.
pub record IsReceiving (k size : ℕ) (orig : Bytes) (p : InPacketiser) (q : InDepacketiser) (n : ℕ)
    (d : Dpram) (received : Bytes) (turn : Bool) : Type 0 where
  pub shared : q.offset + q.remain ≡ size
  pub kept : length q.buf ≡ length orig
  pub small : p.packet_size ≤ 64
  pub memory : length d.memory ≡ 4096
  pub short_0 : (d.controls 0).slot_0.length ≤ 64
  pub short_1 : (d.controls 0).slot_1.length ≤ 64
  pub queue : Staged k size orig p q n d received turn

pub short_at :
    {k size : ℕ} {orig : Bytes} {p : InPacketiser} {q : InDepacketiser} {n : ℕ} {d : Dpram}
    {received : Bytes} {turn : Bool} (b : Bool)
    → IsReceiving k size orig p q n d received turn
    → (at d b).length ≤ 64
short_at false h = h.short_0
short_at true h = h.short_1

pub in_memory :
    (b : Bool) (m : Bytes) (n : ℕ) → n ≤ 64 → length m ≡ 4096 → base (index b) + n ≤ length m
in_memory false m n l e = omega arith
in_memory true m n l e = omega arith

module _ (size : ℕ) (orig : Bytes) where
  -- The chip fills the buffer whose turn it is.
  pub arrived-IsReceiving :
      (p : InPacketiser) (q : InDepacketiser) (n : ℕ) (d : Dpram) (received : Bytes) (turn : Bool)
      (ys : Bytes)
      → (at d turn).available ≡ true
      → length ys ≤ (at d turn).length
      → IsReceiving 2 size orig p q n d received turn
      → IsReceiving 2 size orig p q n (arrived turn ys d) (received ++ ys) (not turn)
  arrived-IsReceiving p q n d received turn ys free l h =
      let short : length ys ≤ 64 = omega (arith, short_at turn h) in
      let fits = in_memory turn d.memory (length ys) short h.memory in
      record {
        shared = h.shared;
        kept = h.kept;
        small = h.small;
        memory = length-store (base (index turn)) ys d.memory fits ∙ h.memory;
        short_0 = short_0 turn short;
        short_1 = short_1 turn short;
        queue =
            come h.queue
              (load-store_self (base (index turn)) (length ys) ys d.memory refl (omega arith))
              (load-store_other turn _ ys d.memory (short_at (not turn) h) short h.memory);
      }
    where
      short_0 : (turn : Bool) → length ys ≤ 64 → ((arrived turn ys d).controls 0).slot_0.length ≤ 64
      short_0 false l = l
      short_0 true l = h.short_0

      short_1 : (turn : Bool) → length ys ≤ 64 → ((arrived turn ys d).controls 0).slot_1.length ≤ 64
      short_1 false l = h.short_1
      short_1 true l = l

      come :
          Staged 2 size orig p q n d received turn
          → load (base (index turn)) (length ys) (store (base (index turn)) ys d.memory) ≡ ys
          → load
              (base (index (not turn)))
              (at d (not turn)).length
              (store (base (index turn)) ys d.memory)
            ≡ payload d (not turn)
          → Staged 2 size orig p q n (arrived turn ys d) (received ++ ys) (not turn)
      come (staged came xs w l' e o b) k k' =
          let w' = arrived-Stages d q.next_retire turn p.next_prep n xs ys free k k' w in
          staged came (xs ++ ys) w' (waiting-le _ _ _ _ _ _ w')
            (ap (λ l. l ++ ys) e ∙ append_assoc came xs ys) o b
