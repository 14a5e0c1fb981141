-- ===== src/UsbHost/Rp2040/Dpram.antt =====
-- cotton-usb-host/src/host/rp2040.rs: the memory that the program and the USB controller share. A
-- buffer control register describes two buffers, which take turns; `controls n` is
-- `ep_buffer_control(n)`. Its fields and the memory are plain storage: what the controller does to
-- them between two polls is a parameter of `Transfer`.
pub mod Laws
use cotton.Prelude.{
  ℕ, zero, suc, ◌+◌, Bool, true, false, not, ◌++◌, length, take, drop, ◌==◌, if◌then◌else◌,
}
use cotton.Prelude.Bytes.{Bytes}

pub record Slot : Type 0 where
  pub full : Bool
  pub pid : Bool
  pub last : Bool
  pub available : Bool
  pub length : ℕ

pub record BufferControl : Type 0 where
  pub slot_0 : Slot
  pub slot_1 : Slot

pub record Dpram : Type 0 where
  pub controls : ℕ → BufferControl
  pub memory : Bytes

-- Zero, the value that a `write` starts from.
abbrev pub no_slot : Slot
no_slot = record { full = false; pid = false; last = false; available = false; length = 0 }

abbrev pub no_buffers : BufferControl
no_buffers = record { slot_0 = no_slot; slot_1 = no_slot }

-- The code matches 0 and anything else.
abbrev pub slot : ℕ → BufferControl → Slot
slot zero b = b.slot_0
slot (suc which) b = b.slot_1

abbrev pub put_slot : ℕ → Slot → BufferControl → BufferControl
put_slot zero s b = record b { slot_0 = s }
put_slot (suc which) s b = record b { slot_1 = s }

abbrev pub put_control : ℕ → BufferControl → Dpram → Dpram
put_control n b d = record d { controls = λ i. if i == n then b else d.controls i }

abbrev pub next : ℕ → ℕ
next zero = 1
next (suc which) = 0

-- The first buffer has the initial PID, the second has the other one.
abbrev pub toggle : ℕ → Bool → Bool
toggle zero initial = initial
toggle (suc which) initial = not initial

-- Where the two buffers of the shared endpoint lie.
abbrev pub base : ℕ → ℕ
base zero = 384
base (suc which) = 448

-- The first and second argument of `copy_nonoverlapping`, for `n` bytes.
abbrev pub load : ℕ → ℕ → Bytes → Bytes
load at n memory = take n (drop at memory)

abbrev pub store : ℕ → Bytes → Bytes → Bytes
store at xs memory = take at memory ++ xs ++ drop (at + length xs) memory
