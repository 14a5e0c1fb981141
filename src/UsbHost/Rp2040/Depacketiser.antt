-- ===== src/UsbHost/Rp2040/Depacketiser.antt =====
-- cotton-usb-host/src/host/rp2040.rs: the depacketisers, which take the buffers back one after
-- another and, for an `In` transfer, copy what they hold to the caller's buffer.
use cotton.Prelude.{ℕ, ◌+◌, ◌-◌, min, Bool, true, false, not, length, ltb, leb, if◌then◌else◌}
use cotton.Prelude.Bytes.{Bytes}
use cotton.Prelude.Outcome.{Outcome, returns, assert, ◌>>=◌, ◌>>◌}
use cotton.UsbHost.Rp2040.Dpram.{Dpram, slot, next, base, load, store}

-- What both implementations of `retire` are to their caller.
pub record Depacketiser (D : Type 0) : Type 0 where
  pub retire : D → Dpram → Outcome (Bool × D)

pub record InDepacketiser : Type 0 where
  pub next_retire : ℕ
  pub packet_parity : Bool
  pub remain : ℕ
  pub offset : ℕ
  pub buf : Bytes

unfoldable pub new_in : ℕ → Bytes → InDepacketiser
new_in size buf = record {
  next_retire = 0;
  packet_parity = false;
  remain = size;
  offset = 0;
  buf = buf;
}

abbrev pub total : InDepacketiser → ℕ
total p = p.offset

-- `self.buf[self.offset]` panics out of range; a copy that goes past the end of `buf` would be
-- undefined behaviour, and counts as a panic too.
abbrev pub copy : ℕ → InDepacketiser → Bytes → Outcome Bytes
copy n p memory = do
  assert (ltb p.offset (length p.buf))
  assert (leb (p.offset + n) (length p.buf))
  returns (store p.offset (load (base p.next_retire) n memory) p.buf)

abbrev pub copy_in : ℕ → InDepacketiser → Bytes → Outcome Bytes
copy_in n p memory = if ltb 0 n then copy n p memory else returns p.buf

abbrev pub receive : ℕ → InDepacketiser → Dpram → Outcome (Bool × InDepacketiser)
receive this_packet p d = do
  buf ← copy_in this_packet p d.memory
  returns (
    true,
    record p {
      packet_parity = not p.packet_parity;
      remain = p.remain - this_packet;
      offset = p.offset + this_packet;
      next_retire = next p.next_retire;
      buf = buf;
    },
  )

unfoldable pub retire_in : InDepacketiser → Dpram → Outcome (Bool × InDepacketiser)
retire_in p d =
    if (slot p.next_retire (d.controls 0)).full
    then receive (min p.remain (slot p.next_retire (d.controls 0)).length) p d
    else returns (false, p)

abbrev pub In : Depacketiser InDepacketiser
In = record { retire = retire_in }

pub record OutDepacketiser : Type 0 where
  pub next_retire : ℕ
  pub packet_parity : Bool

unfoldable pub new_out : OutDepacketiser
new_out = record { next_retire = 0; packet_parity = false }

unfoldable pub retire_out : OutDepacketiser → Dpram → Outcome (Bool × OutDepacketiser)
retire_out p d =
    if (slot p.next_retire (d.controls 0)).full
    then returns (false, p)
    else returns
        (true, record { packet_parity = not p.packet_parity; next_retire = next p.next_retire })

abbrev pub Out : Depacketiser OutDepacketiser
Out = record { retire = retire_out }
