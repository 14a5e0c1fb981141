-- ===== src/UsbHost/Rp2040/Sending/Starting.antt =====
-- cotton-usb-host/src/host/rp2040.rs: an `Out` transfer as `start_transfer` leaves it.
use cotton.Prelude.{
  ℕ, zero, suc, ◌≤◌, ◌<◌, ◌≡◌, ◌⊎◌, refl, Bool, false, inl, inr, [], length, ◌==◌, arith,
}
use cotton.Prelude.Bytes.{Bytes}
use cotton.UsbHost.Rp2040.Packetiser.{OutPacketiser}
use cotton.UsbHost.Rp2040.Depacketiser.{OutDepacketiser}
use cotton.UsbHost.Rp2040.Pac.{Pac}
use cotton.UsbHost.Rp2040.Transfer.{Usb}
use cotton.UsbHost.Rp2040.Inner.{start_transfer}
use cotton.UsbHost.Rp2040.Sending.{Sender, IsSender}
use cotton.UsbHost.Rp2040.Sending.Queue.{none}
use cotton.UsbHost.Rp2040.Sending.Invariant.{IsSending, queued}
use cotton.UsbHost.Rp2040.Sending.Honest.{IsHonest, IsHonest-fresh}
use cotton.UsbHost.Rp2040.Sending.Steps.{Sending}

-- A packetiser that has yet to begin.
pub record IsFresh (buf : Bytes) (first : Bool) (size : ℕ) (p : OutPacketiser) : Type 0 where
  pub source : p.buf ≡ buf
  pub pid : p.initial_pid ≡ first
  pub all : p.remain ≡ size
  pub none : p.offset ≡ 0
  pub prep : p.next_prep ≡ 0
  pub small : p.packet_size ≤ 64
  pub positive : 0 < p.packet_size
  pub need : p.need_zero_size_packet ≡ (size == 0)

-- The chip has its memory, nothing of the transfer is sent, and the first buffer is the next. A report
-- of completion that an earlier transfer left may still be there.
pub record IsIdle {H W : Type 0} (c : Sender H) (s : Usb H W) : Type 0 where
  pub memory : length s.dpram.memory ≡ 4096
  pub nothing : c.sent s.regs ≡ []
  pub turn : c.turn s.regs ≡ false

module _ {H W : Type 0} (pac : Pac H W) (task : W) (c : Sender H) (laws : IsSender pac task c)
    (buf : Bytes) (first : Bool) where
  start_transfer-IsSending :
      (size address endpoint packets : ℕ) (p : OutPacketiser) (s : Usb H W)
      → IsFresh buf first size p
      → IsIdle c s
      → IsSending size buf first p
          (start_transfer pac address endpoint packets s).dpram
          (c.sent (start_transfer pac address endpoint packets s).regs)
          (c.turn (start_transfer pac address endpoint packets s).regs)
  unfolding start_transfer
  start_transfer-IsSending size address endpoint packets p s f h = record {
    source = f.source;
    pid = f.pid;
    shared = omega (arith, f.all, f.none);
    small = f.small;
    positive = f.positive;
    need = need size f.need f.all;
    memory = h.memory;
    short_0 = omega arith;
    short_1 = omega arith;
    queue =
        rw
          (
            laws.write_sent _ _ _,
            laws.write_sent _ _ _,
            laws.write_sent _ _ _,
            laws.write_sent _ _ _,
            laws.write_turn _ _ _,
            laws.write_turn _ _ _,
            laws.write_turn _ _ _,
            laws.write_turn _ _ _,
            h.nothing,
            h.turn,
            f.prep,
            f.none,
          )
          (queued [] (none refl refl refl refl) refl tt refl tt);
  }
    where
      need :
          (size : ℕ)
          → p.need_zero_size_packet ≡ (size == 0)
          → p.remain ≡ size
          → (p.need_zero_size_packet ≡ false) ⊎ ((p.next_prep ≡ 0) × (p.remain ≡ 0))
      need zero e r = inr (f.prep, r)
      need (suc n) e r = inl (ground arith)

  -- Whatever the chip reported before, it reports nothing when a transfer has started.
  start_transfer-IsHonest :
      (address endpoint packets : ℕ) (s : Usb H W)
      → IsHonest c (start_transfer pac address endpoint packets s).regs
  unfolding start_transfer
  start_transfer-IsHonest address endpoint packets s =
      IsHonest-fresh c _ _ (λ e. laws.write_complete _ _ _ (laws.write_complete _ _ _ e))
        (laws.cleared _)

  pub start_transfer-Sending :
      (size address endpoint packets : ℕ) (p : OutPacketiser) (d : OutDepacketiser) (s : Usb H W)
      → IsFresh buf first size p
      → IsIdle c s
      → Sending size buf first c (
        record { packetiser = p; depacketiser = d; in_flight = 0; started = false },
        start_transfer pac address endpoint packets s,
      )
  start_transfer-Sending size address endpoint packets p d s f h = (
    start_transfer-IsSending size address endpoint packets p s f h,
    start_transfer-IsHonest address endpoint packets s,
  )
