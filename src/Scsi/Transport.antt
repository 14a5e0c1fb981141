-- ===== src/Scsi/Transport.antt =====
-- cotton-scsi/src/scsi_transport.rs: errors, data phases, and the transport that a device is given.
-- A command takes the transport from one state `T` to the next, so the calls of a function stand in
-- the order of its awaits.
use cotton.Prelude.{ℕ}
use cotton.Prelude.Bytes.{Bytes}
use cotton.Prelude.Outcome.{Outcome, returns, panics}
use cotton.Prelude.Result.{Result, ok, err}

pub data ScsiError : Type 0 where
  becoming_ready start_unit_required manual_intervention_required format_in_progress : ScsiError
  self_test_in_progress power_cycle_required overheat enclosure_degraded write_error : ScsiError
  write_reallocation_failed unrecovered_read_error read_retries_exhausted : ScsiError
  read_error_too_long read_reallocation_failed logical_block_not_found : ScsiError
  record_not_found invalid_field_in_parameter_list parameter_not_supported : ScsiError
  parameter_value_invalid logical_unit_self_test_failed self_test_failed : ScsiError
  positioning_error parameter_list_length_error miscompare_during_verify : ScsiError
  invalid_command_operation_code logical_block_address_out_of_range : ScsiError
  invalid_field_in_cdb logical_unit_not_supported : ScsiError
  not_ready medium_error hardware_error illegal_request unit_attention data_protect : ScsiError
  blank_check vendor_specific copy_aborted aborted volume_overflow miscompare : ScsiError

-- `E` is the transport's own error type.
pub data Error (E : Type 0) : Type 0 where
  command_failed : Error E
  protocol_error : Error E
  transport : E → Error E
  scsi : ScsiError → Error E

-- `In` carries the caller's buffer as it is before the command.
pub data DataPhase : Type 0 where
  data_in : Bytes → DataPhase
  data_out : Bytes → DataPhase
  no_data : DataPhase

-- What a command leaves: the result, and the buffer of an `In` phase.
pub record Reply (E : Type 0) : Type 0 where
  pub result : Result (Error E) ℕ
  pub buffer : Bytes

-- `trait ScsiTransport`
pub record ScsiTransport (T E : Type 0) : Type 0 where
  pub command : Bytes → DataPhase → T → Outcome (Reply E × T)

-- A computation on the device: it may panic, and it ends in a result and a state of the transport.
abbrev pub Scsi : Type 0 → Type 0 → Type 0 → Type 0
Scsi T E A = T → Outcome (Result (Error E) A × T)

-- The `?` operator. `after` is what follows an awaited result.
abbrev pub after :
    {T E A B : Type 0}
    → (A → Scsi T E B)
    → Result (Error E) A × T
    → Outcome (Result (Error E) B × T)
after f (ok a, t) = f a t
after f (err e, t) = returns (err e, t)

abbrev pub and_then :
    {T E A B : Type 0}
    → (A → Scsi T E B)
    → Outcome (Result (Error E) A × T)
    → Outcome (Result (Error E) B × T)
and_then f panics = panics
and_then f (returns r) = after f r

infixl 5 ◌>>=◌
abbrev pub ◌>>=◌ : {T E A B : Type 0} → Scsi T E A → (A → Scsi T E B) → Scsi T E B
◌>>=◌ m f t = and_then f (m t)

abbrev pub ret : {T E A : Type 0} → A → Scsi T E A
ret a t = returns (ok a, t)

abbrev pub fail : {T E A : Type 0} → Error E → Scsi T E A
fail e t = returns (err e, t)
