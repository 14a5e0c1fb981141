-- ===== src/Msc/Transport.antt =====
-- cotton-usb-host-msc/src/mass_storage.rs: a SCSI command over the bulk endpoints of a device.
pub mod Honest
mod Tests
use cotton.Prelude.{
  ℕ, zero, suc, ◌+◌, ◌*◌, ◌^◌, ◌%◌, Bool, true, false, Option, none, some, List, [], ◌∷◌, length,
  take, drop, get_or, replicate, ◌==◌, ltb, if◌then◌else◌,
}
use cotton.Prelude.Bytes.{Bytes}
use cotton.Prelude.Outcome.{Outcome, returns, panics}
use cotton.Prelude.Result.{Result, ok, err}
use cotton.Scsi.Transport.{
  Error, command_failed, protocol_error, transport, DataPhase, data_in, data_out, no_data, Reply,
  ScsiTransport,
}
use cotton.UsbHost.BitSet.{iter}
use cotton.UsbHost.HostController.{UsbError, TransferType, HostController}
use cotton.UsbHost.Bus.Device.{
  BulkIn, BulkOut, UsbDevice, in_endpoints, out_endpoints, open_in_endpoint, open_out_endpoint,
}
use cotton.UsbHost.Bus.Requests.{bulk_in_transfer, bulk_out_transfer, clear_halt}
use cotton.Msc.Wrapper as Wrapper
use cotton.Msc.Wrapper.{CommandBlockWrapper}

-- `struct MassStorage`; the bus is a parameter below.
pub record MassStorage : Type 0 where
  pub bulk_in : BulkIn
  pub bulk_out : BulkOut
  pub tag : ℕ

-- `iter().next().unwrap_or_default()`
abbrev first_or_zero : List ℕ → ℕ
first_or_zero [] = 0
first_or_zero (n ∷ ns) = n

abbrev with_out : BulkIn → Result UsbError BulkOut × UsbDevice → Result UsbError MassStorage
with_out bulk_in (ok bulk_out, d) = ok (record { bulk_in = bulk_in; bulk_out = bulk_out; tag = 1 })
with_out bulk_in (err e, d) = err e

abbrev with_in : Result UsbError BulkIn × UsbDevice → Result UsbError MassStorage
with_in (ok bulk_in, d) =
    with_out bulk_in (open_out_endpoint d (first_or_zero (iter (out_endpoints d))))
with_in (err e, d) = err e

unfoldable pub new : UsbDevice → Result UsbError MassStorage
new device = with_in (open_in_endpoint device (first_or_zero (iter (in_endpoints device))))

-- `len` and `flags` of a data phase, and its buffer
abbrev pub phase_len : DataPhase → ℕ
phase_len (data_in buf) = length buf
phase_len (data_out buf) = length buf
phase_len no_data = 0

abbrev pub phase_flags : DataPhase → ℕ
phase_flags (data_in buf) = 0x80
phase_flags _ = 0

abbrev pub phase_buffer : DataPhase → Bytes
phase_buffer (data_in buf) = buf
phase_buffer _ = []

module _ {H P : Type 0} (driver : HostController H P) where
  -- The state that a command takes from one to the next.
  abbrev pub State : Type 0
  State = MassStorage × H

  -- How a step of a command ends: with a reply, if the command is over, or with what it goes on with.
  abbrev pub Step : Type 0 → Type 0
  Step A = Result (Error UsbError) A × State

  abbrev pub go_on : {A B : Type 0} → Step A → (A → State → Step B) → Step B
  go_on (ok a, s) f = f a s
  go_on (err e, s) f = (err e, s)

  abbrev pub sent : Result UsbError ℕ → State → Step (Unit {0})
  sent (ok n) s = if ltb n 31 then (err protocol_error, s) else (ok tt, s)
  sent (err e) s = (err (transport e), s)

  -- The first 31 bytes of the wrapper go out.
  unfoldable pub send_wrapper : CommandBlockWrapper → State → Step (Unit {0})
  send_wrapper cbw (m, h) =
      let ((r, ep), h') =
        bulk_out_transfer driver m.bulk_out (take 31 (Wrapper.bytes_of cbw)) TransferType.fixed_size
          h in
      sent r (record m { bulk_out = ep }, h')

  -- The data phase: the controller's answer, the buffer afterwards, and the state.
  unfoldable pub data_phase : DataPhase → State → (Result UsbError ℕ × Bytes) × State
  data_phase (data_in buf) (m, h) =
      let ((r, buf', ep), h') = bulk_in_transfer driver m.bulk_in buf TransferType.fixed_size h in
      ((r, buf'), (record m { bulk_in = ep }, h'))
  data_phase (data_out buf) (m, h) =
      let ((r, ep), h') = bulk_out_transfer driver m.bulk_out buf TransferType.fixed_size h in
      ((r, []), (record m { bulk_out = ep }, h'))
  data_phase no_data s = ((ok 0, []), s)

  abbrev pub cleared : MassStorage → Outcome (Result UsbError BulkIn × H) → Outcome (Step ℕ)
  cleared m panics = panics
  cleared m (returns (ok ep, h)) = returns (ok 0, (record m { bulk_in = ep }, h))
  cleared m (returns (err e, h)) = returns (err (transport e), (m, h))

  -- A stall is cleared and counts as a transfer of no bytes.
  unfoldable pub settle : Result UsbError ℕ → State → Outcome (Step ℕ)
  settle (ok n) s = returns (ok n, s)
  settle (err UsbError.stall) (m, h) = cleared m (clear_halt driver m.bulk_in h)
  settle (err e) s = returns (err (transport e), s)

  -- `match status` on the last byte of the command status wrapper
  abbrev pub status_reply : ℕ → ℕ → Result (Error UsbError) ℕ
  status_reply response status =
      if status == 0
      then ok response
      else if status == 1
      then err command_failed
      else err protocol_error

  abbrev pub read_status : ℕ → Result UsbError ℕ → Bytes → State → Step ℕ
  read_status response (ok n) csw s =
      if ltb n 13 then (err protocol_error, s) else (status_reply response (get_or csw 12 0), s)
  read_status response (err e) csw s = (err (transport e), s)

  unfoldable pub receive_status : ℕ → State → Step ℕ
  receive_status response (m, h) =
      let ((r, csw, ep), h') =
        bulk_in_transfer driver m.bulk_in (replicate 13 0) TransferType.fixed_size h in
      read_status response r csw (record m { bulk_in = ep }, h')

  abbrev pub reply : Bytes → Step ℕ → Reply UsbError × State
  reply buf (r, s) = (record { result = r; buffer = buf }, s)

  abbrev pub finish : Bytes → Outcome (Step ℕ) → Outcome (Reply UsbError × State)
  finish buf panics = panics
  finish buf (returns st) = returns (reply buf (go_on st receive_status))

  abbrev pub exchange : DataPhase → Step (Unit {0}) → Outcome (Reply UsbError × State)
  exchange phase (err e, s) = returns (record { result = err e; buffer = phase_buffer phase }, s)
  exchange phase (ok _, s) = let ((r, buf), s') = data_phase phase s in finish buf (settle r s')

  abbrev pub send :
      DataPhase → State → Outcome CommandBlockWrapper → Outcome (Reply UsbError × State)
  send phase s panics = panics
  send phase s (returns cbw) = exchange phase (send_wrapper cbw s)

  -- The tag is a u32, and wraps as the release build does.
  unfoldable pub command : Bytes → DataPhase → State → Outcome (Reply UsbError × State)
  command cmd phase (m, h) =
      let tag = (m.tag + 2) % 2 ^ 32 in
      send phase (record m { tag = tag }, h)
        (Wrapper.new tag (phase_len phase % 2 ^ 32) (phase_flags phase) cmd)

  unfoldable pub mass_storage : ScsiTransport State UsbError
  mass_storage = record { command = command }
