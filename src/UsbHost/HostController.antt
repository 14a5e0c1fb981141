-- ===== src/UsbHost/HostController.antt =====
-- cotton-usb-host/src/host_controller.rs: the controller that a bus is given. Its state `H` is the
-- hardware and the devices on it; each call takes it from one state to the next, so the calls of a
-- function stand in the order of its awaits. `P` is the type of its interrupt pipes.
use cotton.Prelude.{ℕ, Bool}
use cotton.Prelude.Bytes.{Bytes}
use cotton.Prelude.Outcome.{Outcome, returns, panics}
use cotton.Prelude.Result.{Result, ok, err}
use cotton.UsbHost.Wire.Descriptors.{SetupPacket}

pub data UsbError : Type 0 where
  stall timeout overflow bit_stuff_error crc_error data_seq_error buffer_too_small : UsbError
  all_pipes_in_use protocol_error too_many_devices no_such_endpoint : UsbError

pub data UsbSpeed : Type 0 where
  low1_5 full12 high480 : UsbSpeed

pub data DeviceStatus : Type 0 where
  present : UsbSpeed → DeviceStatus
  absent : DeviceStatus

-- `In` carries the caller's buffer as it is before the transfer.
pub data DataPhase : Type 0 where
  data_in : Bytes → DataPhase
  data_out : Bytes → DataPhase
  no_data : DataPhase

pub data TransferType : Type 0 where
  fixed_size variable_size : TransferType

-- `data` holds 64 bytes, of which `size` are valid.
pub record InterruptPacket : Type 0 where
  pub address : ℕ
  pub endpoint : ℕ
  pub size : ℕ
  pub bytes : Bytes

-- What a transfer leaves: the result, the buffer of an `In` transfer, and the endpoint's toggle.
pub record Transfer : Type 0 where
  pub result : Result UsbError ℕ
  pub buffer : Bytes
  pub data_toggle : Bool

pub record HostController (H P : Type 0) : Type 0 where
  pub reset_root_port : Bool → H → H
  pub control_transfer : ℕ → ℕ → SetupPacket → DataPhase → H → (Result UsbError ℕ × Bytes) × H
  pub bulk_in_transfer : ℕ → ℕ → ℕ → Bytes → TransferType → Bool → H → Transfer × H
  pub bulk_out_transfer : ℕ → ℕ → ℕ → Bytes → TransferType → Bool → H → Transfer × H
  pub try_alloc_interrupt_pipe : ℕ → ℕ → ℕ → ℕ → H → Result UsbError P × H
  pub delay_ms : ℕ → H → H

-- A computation on the bus: it may panic, and it ends in a result and a state.
abbrev pub Usb : Type 0 → Type 0 → Type 0
Usb H A = H → Outcome (Result UsbError A × H)

-- The `?` operator.
abbrev pub after :
    {H A B : Type 0} → (A → Usb H B) → Result UsbError A × H → Outcome (Result UsbError B × H)
after f (ok a, h) = f a h
after f (err e, h) = returns (err e, h)

abbrev pub and_then :
    {H A B : Type 0}
    → (A → Usb H B)
    → Outcome (Result UsbError A × H)
    → Outcome (Result UsbError B × H)
and_then f panics = panics
and_then f (returns r) = after f r

infixl 5 ◌>>=◌ ◌>>◌
abbrev pub ◌>>=◌ : {H A B : Type 0} → Usb H A → (A → Usb H B) → Usb H B
◌>>=◌ m f h = and_then f (m h)

abbrev pub ◌>>◌ : {H A B : Type 0} → Usb H A → Usb H B → Usb H B
m >> k = m >>= λ _. k

abbrev pub ret : {H A : Type 0} → A → Usb H A
ret a h = returns (ok a, h)

abbrev pub fail : {H A : Type 0} → UsbError → Usb H A
fail e h = returns (err e, h)

-- A call that yields no result.
abbrev pub act : {H : Type 0} → (H → H) → Usb H (Unit {0})
act f h = returns (ok tt, f h)
