-- ===== src/UsbHost/Rp2040/Controller/Delivery.antt =====
-- cotton-usb-host/src/host/rp2040.rs: what an `Out` transfer puts on the bus.
use cotton.Prelude.{
  ℕ, zero, suc, ◌+◌, ◌%◌, ◌^◌, ◌≤◌, ◌<◌, ◌≡◌, refl, sym, ◌∙◌, Bool, true, false, List, length, take,
  ltb, arith,
}
use cotton.Prelude.Bytes.{Bytes}
use cotton.Prelude.Result.{Result, ok, err}
use cotton.UsbHost.HostController.{UsbError, fixed_size}
use cotton.UsbHost.Rp2040.Packetiser
use cotton.UsbHost.Rp2040.Packetiser.{OutPacketiser, new_out, needs_zero_size_packet, never}
use cotton.UsbHost.Rp2040.Depacketiser
use cotton.UsbHost.Rp2040.Depacketiser.{OutDepacketiser}
use cotton.UsbHost.Rp2040.Pac.{Pac}
use cotton.UsbHost.Rp2040.Polls.{lift, ◌>>=◌}
use cotton.UsbHost.Rp2040.Polls.Ends.{Holds, All, Ends, proceed-Ends, lift-Ends}
use cotton.UsbHost.Rp2040.Transfer.{Usb, Inner, dir_out}
use cotton.UsbHost.Rp2040.Inner.{control_transfer_inner}
use cotton.UsbHost.Rp2040.Inner.Completes.{Ended, control_transfer_inner-Completes}
use cotton.UsbHost.Rp2040.Sending.{Packet, bytes_of, Alternates, Sender, IsSender, OnlySends}
use cotton.UsbHost.Rp2040.Sending.Prefix.{bytes_of-append, Alternates-left, prefix_of-take}
use cotton.UsbHost.Rp2040.Sending.Invariant.{IsOver, Queued, queued}
use cotton.UsbHost.Rp2040.Sending.Starting.{IsFresh, IsIdle, start_transfer-Sending}
use cotton.UsbHost.Rp2040.Sending.Steps.{Sending, Sent, out_steps, out_last_steps, completed_Sent}
use cotton.UsbHost.Rp2040.Controller.{
  u16, control_transfer_out, write_bulk, out_result, out_transfer,
}

-- After a success the packets sent carry the first `size` bytes of the buffer, after an error a part
-- of them from the start; their PIDs take turns from `first` on.
pub data IsDelivered (size : ℕ) (buf : Bytes) (first : Bool) (sent : List Packet)
    : Result UsbError ℕ → Type 0 where
  delivered :
      bytes_of sent ≡ take size buf
      → Alternates first sent
      → IsDelivered size buf first sent (ok (length buf))
  broken :
      {e : UsbError}
      → (k : ℕ) → k ≤ size
      → bytes_of sent ≡ take k buf
      → Alternates first sent
      → IsDelivered size buf first sent (err e)

module _ {H W : Type 0} (pac : Pac H W) (task : W) (c : Sender H) (laws : IsSender pac task c)
    (buf : Bytes) (first : Bool) where
  Ended-IsDelivered :
      (size : ℕ) (r : Result UsbError (Unit {0}) × Inner OutPacketiser OutDepacketiser)
      (t : Usb H W)
      → Ended (Sent size buf first c) (Sending size buf first c) r t
      → IsDelivered size buf first (c.sent t.regs) (out_result buf r)
  Ended-IsDelivered size (ok u, i) t (e, a) = delivered e a
  Ended-IsDelivered size (err e, i) t h = part h.0.shared h.0.queue
    where
      part :
          i.packetiser.offset + i.packetiser.remain ≡ size
          → Queued
              (IsOver i.packetiser)
              buf
              first
              i.packetiser.next_prep
              i.packetiser.offset
              t.dpram
              (c.sent t.regs)
              (c.turn t.regs)
          → IsDelivered size buf first (c.sent t.regs) (err e)
      part shared (queued ps w same alternate after marked) =
          let sent = c.sent t.regs in
          let (l, same') =
            prefix_of-take i.packetiser.offset (bytes_of sent) (bytes_of ps) buf
              (sym (bytes_of-append sent ps) ∙ same) in
          broken (length (bytes_of sent)) (omega arith) same'
            (Alternates-left first sent ps alternate)

  transfer_out-Delivered :
      (address endpoint n total size : ℕ) (p : OutPacketiser) (later : List (Usb H W → Usb H W))
      (s : Usb H W)
      → IsFresh buf first size p
      → size ≤ length buf
      → All (OnlySends c) later
      → IsIdle c s
      → Ends (OnlySends c) (Ended (Sent size buf first c) (Sending size buf first c)) (
          control_transfer_inner pac Packetiser.Out Depacketiser.Out task address endpoint
            (suc n)
            dir_out
            total
            p
            Depacketiser.new_out
            later
            s)
  transfer_out-Delivered address endpoint n total size p later s f room keep h =
      control_transfer_inner-Completes (out_steps size buf first c pac task laws room)
        (out_last_steps size buf first c pac task laws)
        (λ i t status. completed_Sent size buf first c pac task laws i t status room) address
        endpoint n dir_out total p Depacketiser.new_out later s keep
        (start_transfer-Sending pac task c laws buf first size address endpoint _ p
          Depacketiser.new_out s f h)

  -- The packetiser of a transfer of known size.
  new_out-Holds :
      (size n : ℕ)
      → suc n ≤ 64
      → Holds (IsFresh buf first size) (new_out size (suc n) buf first never)
  unfolding new_out needs_zero_size_packet
  new_out-Holds size n l = record {
    source = refl;
    pid = refl;
    all = refl;
    none = refl;
    prep = refl;
    small = l;
    positive = omega arith;
    need = refl;
  }

  transfer-IsDelivered :
      (address endpoint n total size : ℕ) (later : List (Usb H W → Usb H W)) (s : Usb H W)
      → suc n ≤ 64
      → size ≤ length buf
      → All (OnlySends c) later
      → IsIdle c s
      → Ends (OnlySends c) (Ended (Sent size buf first c) (Sending size buf first c)) (
          (lift (new_out size (suc n) buf first never) >>= λ p.
          control_transfer_inner pac Packetiser.Out Depacketiser.Out task address endpoint
            (suc n)
            dir_out
            total
            p
            Depacketiser.new_out)
            later s)
  transfer-IsDelivered address endpoint n total size later s l room keep h =
      proceed-Ends (OnlySends c) _ _ _ _
        (lift-Ends (OnlySends c) _ (IsIdle c) (new_out size (suc n) buf first never) later s
          (new_out-Holds size n l) keep h)
        (λ p rest t k g.
          transfer_out-Delivered address endpoint n total size p rest t g.0 room k g.1)

-- A control transfer of `size` bytes, which its buffer holds, at a packet size of 1 to 64, to a chip
-- that sends the buffers it is given in turn and reports completion after the one marked as the
-- last, though it may still report that of an earlier transfer when this one begins: the code does
-- not panic or read past its data. After a success the packets on the bus carry
-- exactly the first `size` bytes, after an error a part of them from the start; the PIDs alternate
-- from DATA1 on.
pub control_transfer_out-IsDelivered :
    {H W : Type 0} (pac : Pac H W) (task : W) (c : Sender H) (address packet_size size : ℕ)
    (buf : Bytes) (later : List (Usb H W → Usb H W)) (s : Usb H W)
    → IsSender pac task c
    → 0 < packet_size
    → packet_size ≤ 64
    → size ≤ length buf
    → size < 2 ^ 16
    → All (OnlySends c) later
    → IsIdle c s
    → Ends
        (OnlySends c)
        (λ r t. IsDelivered size buf true (c.sent t.regs) r)
        (control_transfer_out pac task address packet_size size buf later s)
unfolding control_transfer_out new_out needs_zero_size_packet
control_transfer_out-IsDelivered pac task c address zero size buf later s laws pos l room cut keep
      h =
    absurd (omega arith)
control_transfer_out-IsDelivered pac task c address (suc n) size buf later s laws pos l room cut
      keep h =
    let fits : ltb (length buf) size ≡ false = ground arith in
    let whole : size % 2 ^ 16 ≡ size = omega arith in
    rw (fits, whole)
      (proceed-Ends (OnlySends c) _ _ _ _
        (transfer-IsDelivered pac task c laws buf true address 0 n size size later s l room keep h)
        (λ r rest t k g. (k, Ended-IsDelivered pac task c laws buf true size r t g)))

-- A bulk transfer of fixed size, at a packet size of 1 to 64, to a chip that sends the buffers it is
-- given in turn and reports completion after the one marked as the last, though it may still report
-- that of an earlier transfer when this one begins: the code does not panic or read past its data. After a success, whose count is that of all the data, the packets on the bus
-- carry exactly the first bytes of the data, as many as the length modulo 65,536 says, so all of them
-- where there are fewer than that; after an error a part of them from the start. The PIDs alternate
-- from the endpoint's toggle on.
pub write_bulk-IsDelivered :
    {H W : Type 0} (pac : Pac H W) (task : W) (c : Sender H) (address endpoint packet_size : ℕ)
    (buf : Bytes) (toggle : Bool) (later : List (Usb H W → Usb H W)) (s : Usb H W)
    → IsSender pac task c
    → 0 < packet_size
    → packet_size ≤ 64
    → All (OnlySends c) later
    → IsIdle c s
    → Ends
        (OnlySends c)
        (λ r t. IsDelivered (u16 (length buf)) buf toggle (c.sent t.regs) r.result)
        (write_bulk pac task address endpoint packet_size buf fixed_size toggle later s)
unfolding new_out needs_zero_size_packet
write_bulk-IsDelivered {H = H} {W = W} pac task c address endpoint zero buf toggle later s laws pos
      l keep h =
    absurd (omega arith)
write_bulk-IsDelivered {H = H} {W = W} pac task c address endpoint (suc n) buf toggle later s laws
      pos l keep h =
    let size : suc n % 2 ^ 8 ≡ suc n = omega arith in
    rw size (
      proceed-Ends (OnlySends c) _ _ _ _
        (transfer-IsDelivered pac task c laws buf toggle address endpoint n (length buf)
          (u16 (length buf)) later s l (omega arith) keep h)
        (λ r rest t k g.
          (k, settled r t (Ended-IsDelivered pac task c laws buf toggle (u16 (length buf)) r t g))))
  where
    settled :
        (r : Result UsbError (Unit {0}) × Inner OutPacketiser OutDepacketiser) (t : Usb H W)
        → IsDelivered (u16 (length buf)) buf toggle (c.sent t.regs) (out_result buf r)
        → IsDelivered
            (u16 (length buf))
            buf
            toggle
            (c.sent t.regs)
            (out_transfer buf toggle r).result
    settled (ok u, i) t e = e
    settled (err e, i) t g = g
