-- ===== src/UsbHost/Rp2040/Sending.antt =====
-- cotton-usb-host/src/host/rp2040.rs: an `Out` transfer and the chip that sends its packets. The
-- chip is a parameter: what it has sent and whose turn it is are read off its state, and between two
-- polls it takes buffers that are available, each in its turn, as the datasheet says.
pub mod Fill
pub mod Prefix
pub mod Steps
pub mod Honest
pub mod Starting
pub mod Prepare
pub mod Invariant
pub mod Queue
use cotton.Prelude.{
  ℕ, zero, suc, ◌+◌, ◌-◌, ◌^◌, ◌≤◌, ◌≡◌, Bool, true, false, not, List, [], ◌∷◌, ◌++◌,
}
use cotton.Prelude.Bytes.{Bytes}
use cotton.UsbHost.Rp2040.Dpram.{Slot, Dpram, slot, put_slot, put_control, base, load}
use cotton.UsbHost.Rp2040.Pac.{Pac, Register, sie_status, Field, Setting, all, pipe_waker}
use cotton.UsbHost.Rp2040.Transfer.{Usb}

-- A data PID, whether the packet was marked as the last, and its bytes.
abbrev pub Packet : Type 0
Packet = Bool × Bool × Bytes

-- What the packets carry.
abbrev pub bytes_of : List Packet → Bytes
bytes_of [] = []
bytes_of (p ∷ ps) = p.2 ++ bytes_of ps

-- The PIDs take turns, from `pid` on.
abbrev pub Alternates : Bool → List Packet → Type 0
Alternates pid [] = Unit
Alternates pid (p ∷ ps) = (p.0 ≡ pid) × Alternates (not pid) ps

-- The first buffer for `false`, the second for `true`.
abbrev pub index : Bool → ℕ
index false = 0
index true = 1

abbrev pub at : Dpram → Bool → Slot
at d b = slot (index b) (d.controls 0)

abbrev pub packet : Dpram → Bool → Packet
packet d b = ((at d b).pid, (at d b).last, load (base (index b)) (at d b).length d.memory)

-- A buffer after its packet has gone out.
abbrev pub released : Bool → Dpram → Dpram
released b d =
    put_control 0
      (put_slot (index b) (record (at d b) { available = false; full = false }) (d.controls 0)) d

-- What the chip's state tells: the packets that it has sent since the transfer started, the buffer
-- that it looks at next, and whether it reports `trans_complete`.
pub record Sender (H : Type 0) : Type 0 where
  pub sent : H → List Packet
  pub turn : H → Bool
  pub complete : H → Bool

-- The last packet that was sent is one that was marked so.
pub data EndsLast (sent : List Packet) : Type 0 where
  ends_last :
      (before : List Packet) (p : Packet) → sent ≡ before ++ p ∷ [] → p.1 ≡ true → EndsLast sent

-- No register write sends a packet, changes the turn or makes the chip report `trans_complete`. A
-- report stays until it is cleared by a write of ones to the register that holds it.
pub record IsSender {H W : Type 0} (pac : Pac H W) (task : W) (c : Sender H) : Type 0 where
  pub write_sent :
      (r : Register) (settings : List Setting) (h : H) → c.sent (pac.write r settings h) ≡ c.sent h
  pub write_turn :
      (r : Register) (settings : List Setting) (h : H) → c.turn (pac.write r settings h) ≡ c.turn h
  pub modify_sent :
      (r : Register) (settings : List Setting) (h : H) → c.sent (pac.modify r settings h) ≡ c.sent h
  pub modify_turn :
      (r : Register) (settings : List Setting) (h : H) → c.turn (pac.modify r settings h) ≡ c.turn h
  pub register_sent : (h : H) → c.sent (pac.register (pipe_waker 0) task h) ≡ c.sent h
  pub register_turn : (h : H) → c.turn (pac.register (pipe_waker 0) task h) ≡ c.turn h
  pub reading :
      (h : H) → pac.flag Field.trans_complete (pac.read sie_status h) ≡ true → c.complete h ≡ true
  pub write_complete :
      (r : Register) (settings : List Setting) (h : H)
      → c.complete (pac.write r settings h) ≡ true
      → c.complete h ≡ true
  pub modify_complete :
      (r : Register) (settings : List Setting) (h : H)
      → c.complete (pac.modify r settings h) ≡ true
      → c.complete h ≡ true
  pub register_complete :
      (h : H) → c.complete (pac.register (pipe_waker 0) task h) ≡ true → c.complete h ≡ true
  pub cleared : (h : H) → c.complete (pac.write sie_status (all (2 ^ 32 - 1) ∷ []) h) ≡ false

-- What becomes of a report of completion: none is there, the one of before stays, or the packet that
-- was sent last is marked as the last.
pub data IsReport (was now : Bool) (sent : List Packet) : Type 0 where
  no_report : now ≡ false → IsReport was now sent
  still : now ≡ was → IsReport was now sent
  at_end : EndsLast sent → IsReport was now sent

-- The chip sends any number of packets; a completion is reported when the packet that is marked as
-- the last has gone out, and the other registers change in any way.
pub data Sends {H W : Type 0} (c : Sender H) : Usb H W → Usb H W → Type 0 where
  idle :
      {s t : Usb H W}
      → t.dpram ≡ s.dpram
      → c.sent t.regs ≡ c.sent s.regs
      → c.turn t.regs ≡ c.turn s.regs
      → IsReport (c.complete s.regs) (c.complete t.regs) (c.sent t.regs)
      → Sends c s t
  send :
      {s m t : Usb H W}
      → (at s.dpram (c.turn s.regs)).available ≡ true
      → m.dpram ≡ released (c.turn s.regs) s.dpram
      → c.sent m.regs ≡ c.sent s.regs ++ packet s.dpram (c.turn s.regs) ∷ []
      → c.turn m.regs ≡ not (c.turn s.regs)
      → IsReport (c.complete s.regs) (c.complete m.regs) (c.sent m.regs)
      → Sends c m t
      → Sends c s t

abbrev pub OnlySends : {H W : Type 0} → Sender H → (Usb H W → Usb H W) → Type 0
OnlySends {H = H} {W = W} c world = (s : Usb H W) → Sends c s (world s)
