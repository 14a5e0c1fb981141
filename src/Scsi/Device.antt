-- ===== src/Scsi/Device.antt =====
-- cotton-scsi/src/scsi_device.rs: the commands that a device is sent, and how errors are looked up.
pub mod Peripheral
pub mod Errors
pub mod Requests
use cotton.Prelude.{
  ℕ, zero, suc, ◌+◌, Bool, true, false, not, Option, none, some, List, [], ◌∷◌, length, take, drop,
  get_or, replicate, bit_and, ◌==◌, ltb, leb, if◌then◌else◌,
}
use cotton.Prelude.Bytes.{Bytes, from_be_bytes}
use cotton.Prelude.Outcome.{Outcome, returns, panics}
use cotton.Prelude.Result.{Result, ok, err}
use cotton.Scsi.Transport.{
  Error, command_failed, protocol_error, transport, scsi, DataPhase, data_in, data_out, no_data,
  Reply, ScsiTransport, ScsiError, Scsi, after, ◌>>=◌, ret, fail,
}
use cotton.Scsi.Commands.{
  read10, read16, write10, write16, read_capacity10, read_capacity16, test_unit_ready_command,
  request_sense_command, report_supported_operation_codes_command, inquiry_command,
}
use cotton.Scsi.Sense.{RequestSenseReply, sense_from_bytes, classify}
use Peripheral.{PeripheralType, transmute}

-- `struct InquiryData`
pub record InquiryData : Type 0 where
  pub peripheral_type : PeripheralType
  pub is_removable : Bool

module _ {T E : Type 0} (tr : ScsiTransport T E) where
  abbrev pub on_reply :
      {A : Type 0}
      → (Result (Error E) ℕ → Bytes → Scsi T E A)
      → Outcome (Reply E × T)
      → Outcome (Result (Error E) A × T)
  on_reply f panics = panics
  on_reply f (returns (reply, t)) = f reply.result reply.buffer t

  -- `self.transport.command(cmd, data).await`, with the buffer that it leaves
  abbrev pub replied : Result (Error E) ℕ → Bytes → Scsi T E (ℕ × Bytes)
  replied (ok n) buf t = returns (ok (n, buf), t)
  replied (err e) buf t = returns (err e, t)

  abbrev pub command : Bytes → DataPhase → Scsi T E (ℕ × Bytes)
  command cmd phase t = on_reply replied (tr.command cmd phase t)

  abbrev or_protocol_error : Option RequestSenseReply → Scsi T E RequestSenseReply
  or_protocol_error none = fail protocol_error
  or_protocol_error (some r) = ret r

  -- `&buf[0..sz]` panics where the transport claims more than the 18 bytes.
  abbrev pub sense_reply : ℕ × Bytes → Scsi T E RequestSenseReply
  sense_reply (sz, buf) t =
      if leb sz (length buf) then or_protocol_error (sense_from_bytes (take sz buf)) t else panics

  unfoldable pub request_sense : Scsi T E RequestSenseReply
  request_sense = command request_sense_command (data_in (replicate 18 0)) >>= sense_reply

  abbrev pub or_command_failed : Option ScsiError → Error E
  or_command_failed none = command_failed
  or_command_failed (some s) = scsi s

  -- Where REQUEST SENSE fails too the first error stands.
  abbrev pub upgraded : Outcome (Result (Error E) RequestSenseReply × T) → Outcome (Error E × T)
  upgraded panics = panics
  upgraded (returns (ok r, t)) = returns (or_command_failed (classify r), t)
  upgraded (returns (err _, t)) = returns (command_failed, t)

  unfoldable pub try_upgrade_error : Error E → T → Outcome (Error E × T)
  try_upgrade_error command_failed t = upgraded (request_sense t)
  try_upgrade_error protocol_error t = returns (protocol_error, t)
  try_upgrade_error (transport e) t = returns (transport e, t)
  try_upgrade_error (scsi e) t = returns (scsi e, t)

  abbrev pub as_err : {A : Type 0} → Outcome (Error E × T) → Outcome (Result (Error E) A × T)
  as_err panics = panics
  as_err (returns (e, t)) = returns (err e, t)

  -- A command whose error is upgraded: the common shape of the methods below.
  abbrev pub issued : Result (Error E) ℕ → Bytes → Scsi T E (ℕ × Bytes)
  issued (ok n) buf t = returns (ok (n, buf), t)
  issued (err e) buf t = as_err (try_upgrade_error e t)

  unfoldable pub issue : Bytes → DataPhase → Scsi T E (ℕ × Bytes)
  issue cmd phase t = on_reply issued (tr.command cmd phase t)

  -- `command_response`, for a reply type of `size` bytes; `R::default()` is all zeroes.
  abbrev pub sized : ℕ → ℕ × Bytes → Scsi T E Bytes
  sized size (sz, buf) = if ltb sz size then fail protocol_error else ret buf

  unfoldable pub command_response : Bytes → ℕ → Scsi T E Bytes
  command_response cmd size = issue cmd (data_in (replicate size 0)) >>= sized size

  unfoldable pub read_capacity_10 : Scsi T E (ℕ × ℕ)
  read_capacity_10 = do
    reply ← command_response read_capacity10 8
    ret (from_be_bytes (take 4 reply), from_be_bytes (take 4 (drop 4 reply)))

  unfoldable pub read_capacity_16 : Scsi T E (ℕ × ℕ)
  read_capacity_16 = do
    reply ← command_response read_capacity16 32
    ret (from_be_bytes (take 8 reply), from_be_bytes (take 4 (drop 8 reply)))

  unfoldable pub report_supported_operation_codes : ℕ → Option ℕ → Scsi T E Bool
  report_supported_operation_codes opcode service_action = do
    reply ← command_response (report_supported_operation_codes_command opcode service_action) 4
    ret (bit_and (get_or reply 1 0) 7 == 3)

  unfoldable pub test_unit_ready : Scsi T E (Unit {0})
  test_unit_ready = do r ← issue test_unit_ready_command no_data; ret tt

  unfoldable pub inquiry : Scsi T E InquiryData
  inquiry = do
    reply ← command_response (inquiry_command none 36) 36
    ret (record {
      peripheral_type = transmute (bit_and (get_or reply 0 0) 0x1F);
      is_removable = not (bit_and (get_or reply 1 0) 0x80 == 0);
    })

  -- The page is its 64 bytes.
  unfoldable pub block_limits_page : Scsi T E Bytes
  block_limits_page = command_response (inquiry_command (some 0xB0) 64) 64

  -- The reads return the count and the caller's buffer; the writes the count.
  unfoldable pub read_10 : ℕ → ℕ → Bytes → Scsi T E (ℕ × Bytes)
  read_10 start_block count buf = issue (read10 start_block count) (data_in buf)

  unfoldable pub read_16 : ℕ → ℕ → Bytes → Scsi T E (ℕ × Bytes)
  read_16 start_block count buf = issue (read16 start_block count) (data_in buf)

  unfoldable pub write_10 : ℕ → ℕ → Bytes → Scsi T E ℕ
  write_10 start_block count buf = do r ← issue (write10 start_block count) (data_out buf); ret r.0

  unfoldable pub write_16 : ℕ → ℕ → Bytes → Scsi T E ℕ
  write_16 start_block count buf = do r ← issue (write16 start_block count) (data_out buf); ret r.0
