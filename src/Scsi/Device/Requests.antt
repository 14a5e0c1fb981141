-- ===== src/Scsi/Device/Requests.antt =====
-- cotton-scsi/src/scsi_device.rs: the sizes that `new` asserts of each command block.
use cotton.Prelude.{ℕ, ◌≡◌, refl, Option, length}
use cotton.Scsi.Commands.{
  read10, read16, write10, write16, report_supported_operation_codes_command, inquiry_command,
}

pub length-read10 : (lba count : ℕ) → length (read10 lba count) ≡ 10
unfolding read10
length-read10 lba count = refl

pub length-read16 : (lba count : ℕ) → length (read16 lba count) ≡ 16
unfolding read16
length-read16 lba count = refl

pub length-write10 : (lba count : ℕ) → length (write10 lba count) ≡ 10
unfolding write10
length-write10 lba count = refl

pub length-write16 : (lba count : ℕ) → length (write16 lba count) ≡ 16
unfolding write16
length-write16 lba count = refl

pub length-report_supported_operation_codes_command :
    (opcode : ℕ) (action : Option ℕ)
    → length (report_supported_operation_codes_command opcode action) ≡ 12
unfolding report_supported_operation_codes_command
length-report_supported_operation_codes_command opcode action = refl

pub length-inquiry_command : (evpd : Option ℕ) (len : ℕ) → length (inquiry_command evpd len) ≡ 6
unfolding inquiry_command
length-inquiry_command evpd len = refl
