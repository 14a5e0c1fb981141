-- ===== src/UsbHost/Rp2040/Packetiser.antt =====
-- cotton-usb-host/src/host/rp2040.rs: the packetisers, which hand the controller one buffer after
-- another. `reg` is always `ep_buffer_control(0)`; the delay between the two writes to it is left
-- out, as the controller does not touch a buffer that is not available. A `u16` that grows is cut.
pub mod Laws
use cotton.Prelude.{
  ℕ, zero, suc, ◌+◌, ◌-◌, ◌%◌, ◌^◌, Bool, true, false, not, Option, none, some, length, ◌==◌, ltb,
  leb, if◌then◌else◌,
}
use cotton.Prelude.Bytes.{Bytes}
use cotton.Prelude.Outcome.{Outcome, returns, panics, assert, ◌>>=◌, ◌>>◌}
use cotton.UsbHost.Rp2040.Dpram.{
  Slot, Dpram, slot, put_slot, put_control, next, toggle, base, load, store,
}

pub data ZeroLengthPacket : Type 0 where
  as_needed never : ZeroLengthPacket

-- `%` panics at 0.
abbrev pub divides : ℕ → ℕ → Outcome Bool
divides zero size = panics
divides (suc n) size = returns (size % suc n == 0)

unfoldable pub needs_zero_size_packet : ZeroLengthPacket → ℕ → ℕ → Outcome Bool
needs_zero_size_packet never size packet_size = returns (size == 0)
needs_zero_size_packet as_needed size packet_size = divides packet_size size

-- `next_packet` on the fields that it reads: the packet's length and whether it is the last, and
-- the new value of `need_zero_size_packet`.
unfoldable pub next_packet : ℕ → ℕ → Bool → Option (ℕ × Bool) × Bool
next_packet remain packet_size need =
    if remain == 0
    then (if need then (some (0, true), false) else (none, need))
    else if ltb remain packet_size
    then (some (remain, true), need)
    else if ltb packet_size remain
    then (some (packet_size, false), need)
    else (some (remain, not need), need)

-- What both implementations of `prepare` are to their caller.
pub record Packetiser (P : Type 0) : Type 0 where
  pub prepare : P → Dpram → Outcome (Bool × P × Dpram)

abbrev pub arm : ℕ → Slot → Dpram → Dpram
arm which s d = put_control 0 (put_slot which (record s { available = true }) (d.controls 0)) d

pub record InPacketiser : Type 0 where
  pub next_prep : ℕ
  pub remain : ℕ
  pub packet_size : ℕ
  pub need_zero_size_packet : Bool
  pub initial_toggle : Bool

unfoldable pub new_in : ℕ → ℕ → Bool → ZeroLengthPacket → Outcome InPacketiser
new_in remain packet_size initial_toggle zlp = do
  need ← needs_zero_size_packet zlp remain packet_size
  returns (record {
    next_prep = 0;
    remain = remain;
    packet_size = packet_size;
    need_zero_size_packet = need;
    initial_toggle = initial_toggle;
  })

abbrev pub offer :
    Option (ℕ × Bool) × Bool → InPacketiser → Dpram → Outcome (Bool × InPacketiser × Dpram)
offer (none, need) p d = returns (false, record p { need_zero_size_packet = need }, d)
offer (some (this_packet, is_last), need) p d = returns (
  true,
  record p {
    remain = p.remain - this_packet;
    next_prep = next p.next_prep;
    need_zero_size_packet = need;
  },
  arm p.next_prep
      (record (slot p.next_prep (d.controls 0)) {
        full = false;
        pid = toggle p.next_prep p.initial_toggle;
        last = is_last;
        length = p.packet_size;
      })
      d,
)

unfoldable pub prepare_in : InPacketiser → Dpram → Outcome (Bool × InPacketiser × Dpram)
prepare_in p d =
    if (slot p.next_prep (d.controls 0)).available
    then returns (false, p, d)
    else offer (next_packet p.remain p.packet_size p.need_zero_size_packet) p d

abbrev pub In : Packetiser InPacketiser
In = record { prepare = prepare_in }

pub record OutPacketiser : Type 0 where
  pub next_prep : ℕ
  pub initial_pid : Bool
  pub remain : ℕ
  pub offset : ℕ
  pub packet_size : ℕ
  pub need_zero_size_packet : Bool
  pub buf : Bytes

unfoldable pub new_out : ℕ → ℕ → Bytes → Bool → ZeroLengthPacket → Outcome OutPacketiser
new_out size packet_size buf initial_pid zlp = do
  need ← needs_zero_size_packet zlp size packet_size
  returns (record {
    next_prep = 0;
    initial_pid = initial_pid;
    remain = size;
    offset = 0;
    packet_size = packet_size;
    need_zero_size_packet = need;
    buf = buf;
  })

-- `self.buf[self.offset]` panics out of range; a copy that goes past the end of `buf` would be
-- undefined behaviour, and counts as a panic too.
abbrev pub copy : ℕ → ℕ → OutPacketiser → Bytes → Outcome Bytes
copy at n p memory = do
  assert (ltb p.offset (length p.buf))
  assert (leb (p.offset + n) (length p.buf))
  returns (store at (load p.offset n p.buf) memory)

-- Only the first buffer's copy asks whether there is anything to copy.
abbrev pub copy_out : ℕ → ℕ → OutPacketiser → Bytes → Outcome Bytes
copy_out zero n p memory = if ltb 0 n then copy (base 0) n p memory else returns memory
copy_out (suc which) n p memory = copy (base 1) n p memory

abbrev pub send :
    Option (ℕ × Bool) × Bool → OutPacketiser → Dpram → Outcome (Bool × OutPacketiser × Dpram)
send (none, need) p d = returns (false, record p { need_zero_size_packet = need }, d)
send (some (this_packet, is_last), need) p d = do
  memory ← copy_out p.next_prep this_packet p d.memory
  returns (
    true,
    record p {
      remain = p.remain - this_packet;
      offset = p.offset + this_packet;
      next_prep = next p.next_prep;
      need_zero_size_packet = need;
    },
    arm p.next_prep
        (record (slot p.next_prep (d.controls 0)) {
          full = true;
          pid = toggle p.next_prep p.initial_pid;
          last = is_last;
          length = this_packet % 2 ^ 16;
        })
        (record d { memory = memory }),
  )

unfoldable pub prepare_out : OutPacketiser → Dpram → Outcome (Bool × OutPacketiser × Dpram)
prepare_out p d =
    if (slot p.next_prep (d.controls 0)).available
    then returns (false, p, d)
    else send (next_packet p.remain p.packet_size p.need_zero_size_packet) p d

abbrev pub Out : Packetiser OutPacketiser
Out = record { prepare = prepare_out }
