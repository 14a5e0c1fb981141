-- ===== src/Scsi/Sense.antt =====
-- cotton-scsi/src/scsi_device.rs: the sense data of a failed command, and the error that it names.
pub mod Laws
use cotton.Prelude.{
  ℕ, zero, suc, ◌+◌, Bool, true, false, ◌&&◌, Option, none, some, List, [], ◌∷◌, ◌==◌,
  if◌then◌else◌,
}
use cotton.Prelude.Bytes.{Bytes}
use cotton.Scsi.Transport.{ScsiError}
use cotton.Scsi.Transport.ScsiError.{
  becoming_ready, start_unit_required, manual_intervention_required, format_in_progress,
  self_test_in_progress, power_cycle_required, overheat, enclosure_degraded, write_error,
  write_reallocation_failed, unrecovered_read_error, read_retries_exhausted, read_error_too_long,
  read_reallocation_failed, logical_block_not_found, record_not_found,
  invalid_field_in_parameter_list, parameter_not_supported, parameter_value_invalid,
  logical_unit_self_test_failed, self_test_failed, positioning_error, parameter_list_length_error,
  miscompare_during_verify, invalid_command_operation_code, logical_block_address_out_of_range,
  invalid_field_in_cdb, logical_unit_not_supported, not_ready, medium_error, hardware_error,
  illegal_request, unit_attention, data_protect, blank_check, vendor_specific, copy_aborted,
  aborted, volume_overflow, miscompare,
}

-- The fields of `RequestSenseReply` that are read.
pub record RequestSenseReply : Type 0 where
  pub sense_key : ℕ
  pub additional_sense_code : ℕ
  pub additional_sense_code_qualifier : ℕ

-- `bytemuck::try_from_bytes`, for a slice of any length: the struct has 18 bytes.
unfoldable pub sense_from_bytes : Bytes → Option RequestSenseReply
sense_from_bytes
      (_ ∷ _ ∷ key ∷ _ ∷ _ ∷ _ ∷ _ ∷ _ ∷ _ ∷ _ ∷ _ ∷ _ ∷ asc ∷ ascq ∷ _ ∷ _ ∷ _ ∷ _ ∷ []) =
    some (record {
      sense_key = key;
      additional_sense_code = asc;
      additional_sense_code_qualifier = ascq;
    })
sense_from_bytes _ = none

abbrev pub errors3 : List (ℕ × ℕ × ℕ × ScsiError)
errors3 =
    (2, 4, 1, becoming_ready)
    ∷ (2, 4, 2, start_unit_required)
    ∷ (2, 4, 3, manual_intervention_required)
    ∷ (2, 4, 4, format_in_progress)
    ∷ (2, 4, 9, self_test_in_progress)
    ∷ (2, 4, 0x22, power_cycle_required)
    ∷ (1, 0x0B, 0x01, overheat)
    ∷ (1, 0x0B, 0x02, enclosure_degraded)
    ∷ (3, 0x0C, 0x00, write_error)
    ∷ (3, 0x0C, 0x02, write_reallocation_failed)
    ∷ (1, 0x11, 0x00, unrecovered_read_error)
    ∷ (1, 0x11, 0x01, read_retries_exhausted)
    ∷ (1, 0x11, 0x02, read_error_too_long)
    ∷ (3, 0x11, 0x04, read_reallocation_failed)
    ∷ (3, 0x14, 0x00, logical_block_not_found)
    ∷ (3, 0x14, 0x01, record_not_found)
    ∷ (5, 0x26, 0x00, invalid_field_in_parameter_list)
    ∷ (5, 0x26, 0x01, parameter_not_supported)
    ∷ (5, 0x26, 0x02, parameter_value_invalid)
    ∷ (4, 0x3E, 0x03, logical_unit_self_test_failed)
    ∷ (4, 0x42, 0x00, self_test_failed)
    ∷ []

abbrev pub errors2 : List (ℕ × ℕ × ScsiError)
errors2 =
    (3, 0x14, positioning_error)
    ∷ (5, 0x1A, parameter_list_length_error)
    ∷ (0xE, 0x1D, miscompare_during_verify)
    ∷ (5, 0x20, invalid_command_operation_code)
    ∷ (0xD, 0x21, logical_block_address_out_of_range)
    ∷ (5, 0x24, invalid_field_in_cdb)
    ∷ (5, 0x25, logical_unit_not_supported)
    ∷ []

abbrev pub errors1 : List (ℕ × ScsiError)
errors1 =
    (2, not_ready)
    ∷ (3, medium_error)
    ∷ (4, hardware_error)
    ∷ (5, illegal_request)
    ∷ (6, unit_attention)
    ∷ (7, data_protect)
    ∷ (8, blank_check)
    ∷ (9, vendor_specific)
    ∷ (10, copy_aborted)
    ∷ (11, aborted)
    ∷ (13, volume_overflow)
    ∷ (14, miscompare)
    ∷ []

-- The three loops of `try_upgrade_error`: each returns at its first match.
unfoldable pub find1 : RequestSenseReply → List (ℕ × ScsiError) → Option ScsiError
find1 r [] = none
find1 r ((key, e) ∷ es) = let rest = find1 r es in if r.sense_key == key then some e else rest

unfoldable pub find2 : RequestSenseReply → List (ℕ × ℕ × ScsiError) → Option ScsiError
find2 r [] = none
find2 r ((key, asc, e) ∷ es) =
    let rest = find2 r es in
    if r.sense_key == key && r.additional_sense_code == asc then some e else rest

unfoldable pub find3 : RequestSenseReply → List (ℕ × ℕ × ℕ × ScsiError) → Option ScsiError
find3 r [] = none
find3 r ((key, asc, ascq, e) ∷ es) =
    let rest = find3 r es in
    if r.sense_key == key
      && (r.additional_sense_code == asc && r.additional_sense_code_qualifier == ascq)
    then some e
    else rest

abbrev or_else : Option ScsiError → Option ScsiError → Option ScsiError
or_else (some e) o = some e
or_else none o = o

-- The error that the tables name, if any: the most specific table first.
unfoldable pub classify : RequestSenseReply → Option ScsiError
classify r = or_else (find3 r errors3) (or_else (find2 r errors2) (find1 r errors1))
