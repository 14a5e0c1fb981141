-- ===== src/Scsi/Commands.antt =====
-- cotton-scsi/src/scsi_device.rs: the command blocks, as the bytes of the packed structs, field by
-- field in their order.
use cotton.Prelude.{ℕ, Option, none, some, [], ◌∷◌, ◌++◌}
use cotton.Prelude.Bytes.{Bytes, to_be_bytes}

unfoldable pub read10 : ℕ → ℕ → Bytes
read10 lba count = 0x28 ∷ 0 ∷ (to_be_bytes 4 lba ++ (0 ∷ (to_be_bytes 2 count ++ (0 ∷ []))))

unfoldable pub read16 : ℕ → ℕ → Bytes
read16 lba count = 0x88 ∷ 0 ∷ (to_be_bytes 8 lba ++ (to_be_bytes 4 count ++ (0 ∷ 0 ∷ [])))

unfoldable pub write10 : ℕ → ℕ → Bytes
write10 lba count = 0x2A ∷ 0 ∷ (to_be_bytes 4 lba ++ (0 ∷ (to_be_bytes 2 count ++ (0 ∷ []))))

unfoldable pub write16 : ℕ → ℕ → Bytes
write16 lba count = 0x8A ∷ 0 ∷ (to_be_bytes 8 lba ++ (to_be_bytes 4 count ++ (0 ∷ 0 ∷ [])))

unfoldable pub read_capacity10 : Bytes
read_capacity10 = 0x25 ∷ 0 ∷ 0 ∷ 0 ∷ 0 ∷ 0 ∷ 0 ∷ 0 ∷ 0 ∷ 0 ∷ []

unfoldable pub read_capacity16 : Bytes
read_capacity16 = 0x9E ∷ 0x10 ∷ 0 ∷ 0 ∷ 0 ∷ 0 ∷ 0 ∷ 0 ∷ 0 ∷ 0 ∷ 0 ∷ 0 ∷ 0 ∷ 32 ∷ 0 ∷ 0 ∷ []

unfoldable pub test_unit_ready_command : Bytes
test_unit_ready_command = 0 ∷ 0 ∷ 0 ∷ 0 ∷ 0 ∷ 0 ∷ []

unfoldable pub request_sense_command : Bytes
request_sense_command = 3 ∷ 0 ∷ 0 ∷ 0 ∷ 18 ∷ 0 ∷ []

-- `unwrap_or_default`
abbrev or_zero : Option ℕ → ℕ
or_zero none = 0
or_zero (some x) = x

abbrev is_some : Option ℕ → ℕ
is_some none = 0
is_some (some x) = 1

unfoldable pub report_supported_operation_codes_command : ℕ → Option ℕ → Bytes
report_supported_operation_codes_command opcode service_action =
    0xA3
    ∷ 0x0C
    ∷ 3
    ∷ opcode
    ∷ (to_be_bytes 2 (or_zero service_action) ++ (0 ∷ 0 ∷ 0 ∷ 4 ∷ 0 ∷ 0 ∷ []))

unfoldable pub inquiry_command : Option ℕ → ℕ → Bytes
inquiry_command evpd len = 0x12 ∷ is_some evpd ∷ or_zero evpd ∷ (to_be_bytes 2 len ++ (0 ∷ []))
