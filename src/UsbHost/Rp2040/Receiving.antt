-- ===== src/UsbHost/Rp2040/Receiving.antt =====
-- cotton-usb-host/src/host/rp2040.rs: an `In` transfer and the chip that receives its packets. The
-- chip is a parameter, as in Sending: between two polls it fills buffers that are available, each in
-- its turn, with no more bytes than the buffer was given for.
pub mod Steps
pub mod Step
pub mod Invariant
pub mod Store
pub mod Stages
use cotton.Prelude.{ℕ, ◌+◌, ◌-◌, ◌≤◌, ◌≡◌, ◌≢◌, Bool, true, false, not, List, [], ◌∷◌, ◌++◌, length}
use cotton.Prelude.Bytes.{Bytes}
use cotton.UsbHost.Rp2040.Dpram.{Slot, Dpram, put_slot, put_control, base, load, store}
use cotton.UsbHost.Rp2040.Pac.{Pac, Register, Setting, pipe_waker}
use cotton.UsbHost.Rp2040.Transfer.{Usb}
use cotton.UsbHost.Rp2040.Sending.{index, at}

-- What the chip's state tells: the bytes that it has received since the transfer started, and the
-- buffer that it looks at next.
pub record Receiver (H : Type 0) : Type 0 where
  pub received : H → Bytes
  pub turn : H → Bool

-- No register write receives anything or changes the turn.
pub record IsReceiver {H W : Type 0} (pac : Pac H W) (task : W) (c : Receiver H) : Type 0 where
  pub write_received :
      (r : Register) (settings : List Setting) (h : H)
      → c.received (pac.write r settings h) ≡ c.received h
  pub write_turn :
      (r : Register) (settings : List Setting) (h : H) → c.turn (pac.write r settings h) ≡ c.turn h
  pub modify_received :
      (r : Register) (settings : List Setting) (h : H)
      → c.received (pac.modify r settings h) ≡ c.received h
  pub modify_turn :
      (r : Register) (settings : List Setting) (h : H) → c.turn (pac.modify r settings h) ≡ c.turn h
  pub register_received : (h : H) → c.received (pac.register (pipe_waker 0) task h) ≡ c.received h
  pub register_turn : (h : H) → c.turn (pac.register (pipe_waker 0) task h) ≡ c.turn h

-- A buffer after the bytes `xs` have come in.
abbrev pub arrived : Bool → Bytes → Dpram → Dpram
arrived b xs d =
    put_control 0
      (put_slot (index b) (record (at d b) { available = false; full = true; length = length xs })
        (d.controls 0))
      (record d { memory = store (base (index b)) xs d.memory })

abbrev pub payload : Dpram → Bool → Bytes
payload d b = load (base (index b)) (at d b).length d.memory

-- The chip receives any number of packets, and its registers change in any way.
pub data Receives {H W : Type 0} (c : Receiver H) : Usb H W → Usb H W → Type 0 where
  idle :
      {s t : Usb H W}
      → t.dpram ≡ s.dpram
      → c.received t.regs ≡ c.received s.regs
      → c.turn t.regs ≡ c.turn s.regs
      → Receives c s t
  receive :
      {s m t : Usb H W}
      → (xs : Bytes) → (at s.dpram (c.turn s.regs)).available ≡ true
      → length xs ≤ (at s.dpram (c.turn s.regs)).length
      → m.dpram ≡ arrived (c.turn s.regs) xs s.dpram
      → c.received m.regs ≡ c.received s.regs ++ xs
      → c.turn m.regs ≡ not (c.turn s.regs)
      → Receives c m t
      → Receives c s t

abbrev pub OnlyReceives : {H W : Type 0} → Receiver H → (Usb H W → Usb H W) → Type 0
OnlyReceives {H = H} {W = W} c world = (s : Usb H W) → Receives c s (world s)
