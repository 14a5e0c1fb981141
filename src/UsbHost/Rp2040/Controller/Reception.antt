-- ===== src/UsbHost/Rp2040/Controller/Reception.antt =====
-- cotton-usb-host/src/host/rp2040.rs: what an `In` transfer takes off the bus.
use cotton.Prelude.{
  ℕ, zero, suc, ◌%◌, ◌^◌, ◌≤◌, ◌<◌, ◌≡◌, refl, ◌∙◌, false, min, List, [], ◌++◌, length,
  length-append, take, drop, ltb, arith,
}
use cotton.Prelude.Bytes.{Bytes}
use cotton.Prelude.Result.{Result, ok, err}
use cotton.UsbHost.HostController.{UsbError}
use cotton.UsbHost.Rp2040.Packetiser.{InPacketiser, new_in, needs_zero_size_packet}
use cotton.UsbHost.Rp2040.Depacketiser
use cotton.UsbHost.Rp2040.Depacketiser.{InDepacketiser}
use cotton.UsbHost.Rp2040.Pac.{Pac}
use cotton.UsbHost.Rp2040.Polls.Ends.{All, Ends, proceed-Ends}
use cotton.UsbHost.Rp2040.Transfer.{Usb, Inner}
use cotton.UsbHost.Rp2040.Inner.{start_transfer}
use cotton.UsbHost.Rp2040.Inner.Completes.{Ended, control_transfer_inner-Finishes}
use cotton.UsbHost.Rp2040.Receiving.{Receiver, IsReceiver, OnlyReceives}
use cotton.UsbHost.Rp2040.Receiving.Stages.{none}
use cotton.UsbHost.Rp2040.Receiving.Store.{filled-append}
use cotton.UsbHost.Rp2040.Receiving.Invariant.{Staged, staged}
use cotton.UsbHost.Rp2040.Receiving.Steps.{Receiving, Stored, in_steps, finish-Stored}
use cotton.UsbHost.Rp2040.Controller.{control_transfer_in, in_result}

-- After a success the buffer starts with what came, cut to `size` bytes, and the result counts those;
-- after an error it starts with a part of what came. The rest of the buffer is as it was.
pub data IsStored (size : ℕ) (orig came : Bytes) : Result UsbError ℕ → Bytes → Type 0 where
  stored :
      {n : ℕ} {buf : Bytes}
      → n ≡ min size (length came)
      → buf ≡ take n came ++ drop n orig
      → IsStored size orig came (ok n) buf
  broken :
      {e : UsbError} {n : ℕ} {buf : Bytes}
      → n ≤ min size (length came)
      → buf ≡ take n came ++ drop n orig
      → IsStored size orig came (err e) buf

-- The chip has its memory, nothing has come, and the first buffer is the next.
pub record IsReady {H W : Type 0} (c : Receiver H) (s : Usb H W) : Type 0 where
  pub memory : length s.dpram.memory ≡ 4096
  pub nothing : c.received s.regs ≡ []
  pub turn : c.turn s.regs ≡ false

module _ {H W : Type 0} (pac : Pac H W) (task : W) (c : Receiver H) (laws : IsReceiver pac task c)
    (size : ℕ) (orig : Bytes) where
  start_transfer-Receiving :
      (address endpoint packets : ℕ) (p : InPacketiser) (s : Usb H W)
      → p.next_prep ≡ 0
      → p.packet_size ≤ 64
      → IsReady c s
      → Receiving size orig c 2 (
        record {
          packetiser = p;
          depacketiser = Depacketiser.new_in size orig;
          in_flight = 0;
          started = false;
        },
        start_transfer pac address endpoint packets s,
      )
  unfolding start_transfer Depacketiser.new_in
  start_transfer-Receiving address endpoint packets p s prep small h = record {
    shared = omega arith;
    kept = refl;
    small = small;
    memory = h.memory;
    short_0 = omega arith;
    short_1 = omega arith;
    queue =
        rw
          (
            laws.write_received _ _ _,
            laws.write_received _ _ _,
            laws.write_received _ _ _,
            laws.write_received _ _ _,
            laws.write_turn _ _ _,
            laws.write_turn _ _ _,
            laws.write_turn _ _ _,
            laws.write_turn _ _ _,
            h.nothing,
            h.turn,
          )
          (staged [] [] (none refl prep refl refl refl refl) (omega arith) refl (omega arith) refl);
  }

  Ended-IsStored :
      (r : Result UsbError (Unit {0}) × Inner InPacketiser InDepacketiser) (t : Usb H W)
      → Ended (Stored size orig c) (Receiving size orig c 2) r t
      → IsStored size orig (c.received t.regs) (in_result r).0 (in_result r).1
  Ended-IsStored (ok u, i) t (e, f) = stored e f
  Ended-IsStored (err e, i) t h = part h.queue
    where
      part :
          Staged 2 size orig i.packetiser i.depacketiser i.in_flight t.dpram
            (c.received t.regs)
            (c.turn t.regs)
          → IsStored size orig (c.received t.regs) (err e) i.depacketiser.buf
      part (staged came xs w l same o g) = rw same (
          broken {n = i.depacketiser.offset} (omega (arith, length-append came xs))
            (g ∙ filled-append i.depacketiser.offset came xs orig (omega arith)))

-- A control transfer of `size` bytes to a buffer that holds them, at a packet size of 1 to 64, from a
-- chip that fills the buffers it is given in turn: the code does not panic or write past its buffer.
-- After a success the buffer starts with the bytes that came, in their order and cut to `size`, and
-- the result is their number; after an error it starts with a part of them. The rest of the buffer
-- is as it was.
pub control_transfer_in-IsStored :
    {H W : Type 0} (pac : Pac H W) (task : W) (c : Receiver H) (address packet_size size : ℕ)
    (buf : Bytes) (later : List (Usb H W → Usb H W)) (s : Usb H W)
    → IsReceiver pac task c
    → 0 < packet_size
    → packet_size ≤ 64
    → size ≤ length buf
    → size < 2 ^ 16
    → All (OnlyReceives c) later
    → IsReady c s
    → Ends
        (OnlyReceives c)
        (λ r t. IsStored size buf (c.received t.regs) r.0 r.1)
        (control_transfer_in pac task address packet_size size buf later s)
unfolding control_transfer_in new_in needs_zero_size_packet
control_transfer_in-IsStored pac task c address zero size buf later s laws pos l room cut keep h =
    absurd (omega arith)
control_transfer_in-IsStored pac task c address (suc n) size buf later s laws pos l room cut keep
      h =
    let fits : ltb (length buf) size ≡ false = ground arith in
    let whole : size % 2 ^ 16 ≡ size = omega arith in
    rw (fits, whole)
      (proceed-Ends (OnlyReceives c) _ _ _ _
        (control_transfer_inner-Finishes (Stored size buf c)
          (in_steps size buf c pac task laws room) (finish-Stored size buf c pac task laws room)
          address 0 n _ size _ (Depacketiser.new_in size buf) later s keep
          (start_transfer-Receiving pac task c laws size buf address 0 _ _ s refl l h))
        (λ r rest t k g. (k, Ended-IsStored pac task c laws size buf r t g)))
