-- ===== src/UsbHost/Rp2040/Controller/Bounds.antt =====
-- cotton-usb-host/src/host/rp2040.rs: what an `In` transfer does to the caller's buffer, on any bus.
use cotton.Prelude.{
  ℕ, zero, suc, ◌%◌, ◌^◌, ◌≤◌, ◌<◌, ◌≡◌, refl, Bool, true, false, Bool-cases, inl, inr, min, length,
  ltb, List, arith,
}
use cotton.Prelude.Bytes.{Bytes}
use cotton.Prelude.Result.{Result, ok, err}
use cotton.UsbHost.HostController.{UsbError, TransferType}
use cotton.UsbHost.Rp2040.Dpram.Laws.{IsDpram}
use cotton.UsbHost.Rp2040.Packetiser
use cotton.UsbHost.Rp2040.Packetiser.{
  InPacketiser, new_in, needs_zero_size_packet, ZeroLengthPacket, never, as_needed, divides,
}
use cotton.UsbHost.Rp2040.Depacketiser
use cotton.UsbHost.Rp2040.Depacketiser.{InDepacketiser}
use cotton.UsbHost.Rp2040.Pac.{Pac}
use cotton.UsbHost.Rp2040.Polls.Ends.{Holds, All, Ends, proceed-Ends, lift-Ends}
use cotton.UsbHost.Rp2040.Polls.{Progress}
use cotton.UsbHost.Rp2040.Transfer.{Usb, Inner, dir_in}
use cotton.UsbHost.Rp2040.Inner.{control_transfer_inner, start_transfer}
use cotton.UsbHost.Rp2040.Inner.Keeps.{AreSteps}
use cotton.UsbHost.Rp2040.Inner.Completes.{Ended, control_transfer_inner-Ends}
use cotton.UsbHost.Rp2040.Inner.InSafe.{IsWithin, prepare_one-IsWithin, retire_one-IsWithin}
use cotton.UsbHost.Rp2040.Controller.{
  control_transfer_in, read_bulk, u16, in_result, in_transfer, zero_length_packet,
}

-- What the world does between two polls leaves a chip's memory.
abbrev pub KeepsDpram : {H W : Type 0} → (Usb H W → Usb H W) → Type 0
KeepsDpram {H = H} {W = W} world = (s : Usb H W) → IsDpram s.dpram → IsDpram (world s).dpram

-- At most `size` bytes are claimed, and the buffer still has `room` bytes.
pub data IsRead (size room : ℕ) : Result UsbError ℕ → Bytes → Type 0 where
  read : {n : ℕ} {buf : Bytes} → n ≤ size → length buf ≡ room → IsRead size room (ok n) buf
  refused : {e : UsbError} {buf : Bytes} → length buf ≡ room → IsRead size room (err e) buf

module _ {H W : Type 0} (pac : Pac H W) (task : W) where
  in_steps :
      (size room : ℕ)
      → size ≤ room
      → AreSteps pac Packetiser.In Depacketiser.In task KeepsDpram (IsWithin size room)
  in_steps size room fits = record {
    on_write = λ i s r settings h. copied i s _ h;
    on_modify = λ i s r settings h. copied i s _ h;
    on_register = λ i s h. copied i s _ h;
    on_start = λ i s h. record { shared = h.shared; kept = h.kept; short = h.short; chip = h.chip };
    on_prepare = prepare_one-IsWithin size room;
    on_retire = retire_one-IsWithin size room fits;
    on_world = λ i s world k h. record {
      shared = h.shared;
      kept = h.kept;
      short = h.short;
      chip = k s h.chip;
    };
  }
    where
      copied :
          (i : Inner InPacketiser InDepacketiser) (s : Usb H W) (regs : H)
          → IsWithin size room (i, s)
          → IsWithin size room (i, record s { regs = regs })
      copied i s regs h = record {
        shared = h.shared;
        kept = h.kept;
        short = h.short;
        chip = h.chip;
      }

  start_transfer-IsWithin :
      (size room address endpoint packets : ℕ) (p : InPacketiser) (buf : Bytes) (s : Usb H W)
      → length buf ≡ room
      → p.packet_size < 1024
      → IsDpram s.dpram
      → IsWithin size room (
        record {
          packetiser = p;
          depacketiser = Depacketiser.new_in size buf;
          in_flight = 0;
          started = false;
        },
        start_transfer pac address endpoint packets s,
      )
  unfolding start_transfer Depacketiser.new_in
  start_transfer-IsWithin size room address endpoint packets p buf s l short h = record {
    shared = omega arith;
    kept = l;
    short = short;
    chip = record { size = h.size; short_0 = omega arith; short_1 = omega arith };
  }

  abbrev Stopped : ℕ → ℕ → Result UsbError (Unit {0}) × Inner InPacketiser InDepacketiser → Type 0
  Stopped size room r = (r.1.depacketiser.offset ≤ size) × (length r.1.depacketiser.buf ≡ room)

  -- The transfer for a packetiser of any kind.
  transfer_in-Stopped :
      (address endpoint n total : ℕ) (buf : Bytes) (p : InPacketiser) (size : ℕ)
      (later : List (Usb H W → Usb H W)) (s : Usb H W)
      → p.packet_size < 1024
      → size ≤ length buf
      → All KeepsDpram later
      → IsDpram s.dpram
      → Ends KeepsDpram
          (λ r t. Stopped size (length buf) r × IsDpram t.dpram)
          (control_transfer_inner pac Packetiser.In Depacketiser.In task address endpoint
            (suc n)
            dir_in
            total
            p
            (Depacketiser.new_in size buf)
            later
            s)
  transfer_in-Stopped address endpoint n total buf p size later s short fits keep h = weaken _ (
      control_transfer_inner-Ends (in_steps size (length buf) fits) address endpoint n dir_in total
        p (Depacketiser.new_in size buf) later s keep
        (start_transfer-IsWithin size (length buf) address endpoint _ p buf s refl short h))
    where
      weaken :
          (m : Progress (Usb H W) (Result UsbError (Unit {0}) × Inner InPacketiser InDepacketiser))
          → Ends KeepsDpram (Ended (IsWithin size (length buf)) (IsWithin size (length buf))) m
          → Ends KeepsDpram (λ r t. Stopped size (length buf) r × IsDpram t.dpram) m
      weaken (Progress.ready (ok u, i) l t) (k, w) =
          (k, ((omega (arith, w.shared), w.kept), w.chip))
      weaken (Progress.ready (err e, i) l t) (k, w) =
          (k, ((omega (arith, w.shared), w.kept), w.chip))
      weaken (Progress.pending t) e = tt
      weaken Progress.panicked e = elim e [ ]

  -- A packet size that is not 0 is no reason to panic.
  new_in-Holds :
      (size n : ℕ) (toggle : Bool) (zlp : ZeroLengthPacket)
      → Holds (λ p. p.packet_size ≡ suc n) (new_in size (suc n) toggle zlp)
  unfolding new_in needs_zero_size_packet
  new_in-Holds size n toggle never = refl
  new_in-Holds size n toggle as_needed = refl

  -- A control transfer of `size` bytes to a buffer that may hold more or fewer: at a packet size of
  -- 1 to 255, the code does not panic, claims at most `size` bytes and no more than the buffer
  -- holds, and never changes the buffer's length, whatever the chip reports.
  pub control_transfer_in-IsRead :
      (address packet_size size : ℕ) (buf : Bytes) (later : List (Usb H W → Usb H W)) (s : Usb H W)
      → 0 < packet_size
      → packet_size < 256
      → All KeepsDpram later
      → IsDpram s.dpram
      → Ends KeepsDpram
          (λ r t. IsRead (min size (length buf)) (length buf) r.0 r.1)
          (control_transfer_in pac task address packet_size size buf later s)
  unfolding control_transfer_in
  control_transfer_in-IsRead address zero size buf later s pos l keep h = absurd (omega arith)
  control_transfer_in-IsRead address (suc n) size buf later s pos l keep h =
      elim (Bool-cases (ltb (length buf) size)) [
        | inl q ↦ rw q (keep, refused refl)
        | inr q ↦
            let fits : u16 size ≤ length buf = ground arith in
            rw q (
              proceed-Ends KeepsDpram _ _ _ _
                (lift-Ends KeepsDpram _ (λ t. IsDpram t.dpram)
                  (new_in (u16 size) (suc n) true never) later s
                  (new_in-Holds (u16 size) n true never) keep h)
                (λ p rest t k g.
                  proceed-Ends KeepsDpram _ _ _ _
                    (transfer_in-Stopped address 0 n size buf p (u16 size) rest t
                      (omega (arith, g.0)) fits k g.1)
                    (λ r rest' t' k' g'. (k', settled fits r g'.0))))
      ]
    where
      settled :
          u16 size ≤ length buf
          → (r : Result UsbError (Unit {0}) × Inner InPacketiser InDepacketiser)
          → Stopped (u16 size) (length buf) r
          → IsRead (min size (length buf)) (length buf) (in_result r).0 (in_result r).1
      settled fits (ok u, i) (a, b) =
          let cut : u16 size ≤ size = omega arith in read (omega (arith, a, cut)) b
      settled fits (err e, i) (a, b) = refused b

  -- A bulk transfer of either type to the whole buffer, at a packet size of 1 to 255: the code does
  -- not panic, claims no more than the buffer holds, and never changes the buffer's length,
  -- whatever the chip reports.
  pub read_bulk-IsRead :
      (address endpoint packet_size : ℕ) (buf : Bytes) (ty : TransferType) (toggle : Bool)
      (later : List (Usb H W → Usb H W)) (s : Usb H W)
      → 0 < packet_size
      → packet_size < 256
      → All KeepsDpram later
      → IsDpram s.dpram
      → Ends KeepsDpram
          (λ r t. IsRead (length buf) (length buf) r.result r.buffer)
          (read_bulk pac task address endpoint packet_size buf ty toggle later s)
  read_bulk-IsRead address endpoint zero buf ty toggle later s pos l keep h = absurd (omega arith)
  read_bulk-IsRead address endpoint (suc n) buf ty toggle later s pos l keep h =
      let zlp = zero_length_packet ty in
      let size = u16 (length buf) in
      let e : suc n % 2 ^ 8 ≡ suc n = omega arith in
      rw e (
        proceed-Ends KeepsDpram _ _ _ _
          (lift-Ends KeepsDpram _ (λ t. IsDpram t.dpram) (new_in size (suc n) toggle zlp) later s
            (new_in-Holds size n toggle zlp) keep h)
          (λ p rest t k g.
            proceed-Ends KeepsDpram _ _ _ _
              (transfer_in-Stopped address endpoint n size buf p size rest t (omega (arith, g.0))
                (omega arith) k g.1)
              (λ r rest' t' k' g'. (k', settled r g'.0))))
    where
      settled :
          (r : Result UsbError (Unit {0}) × Inner InPacketiser InDepacketiser)
          → Stopped (u16 (length buf)) (length buf) r
          → IsRead
              (length buf)
              (length buf)
              (in_transfer toggle r).result
              (in_transfer toggle r).buffer
      settled (ok u, i) (a, b) =
          let cut : u16 (length buf) ≤ length buf = omega arith in read (omega (arith, a, cut)) b
      settled (err e, i) (a, b) = refused b
