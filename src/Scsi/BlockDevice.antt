-- ===== src/Scsi/BlockDevice.antt =====
-- cotton-scsi/src/scsi_block_device.rs and async_block_device.rs: a SCSI disk as a block device.
pub mod Refine
pub mod Capacity
mod Tests
use cotton.Prelude.{
  ℕ, zero, suc, ◌+◌, ◌-◌, ◌^◌, ◌%◌, Bool, true, false, ◌&&◌, Option, none, List, [], ◌∷◌, length,
  ◌==◌, ltb, leb, if◌then◌else◌, map,
}
use cotton.Prelude.Bytes.{Bytes}
use cotton.Prelude.Outcome.{Outcome, returns, panics}
use cotton.Prelude.Result.{Result, ok, err}
use cotton.Scsi.Transport.{
  Error, protocol_error, scsi, ScsiTransport, Scsi, ScsiError, after, ◌>>=◌, ret, fail,
}
use cotton.Scsi.Device.{
  read_capacity_10, read_capacity_16, report_supported_operation_codes, read_10, read_16, write_10,
  write_16,
}

-- `struct DeviceInfo`
pub record DeviceInfo : Type 0 where
  pub blocks : ℕ
  pub block_size : ℕ

-- `u64::checked_add` and the `ok_or` behind it
abbrev pub checked_end : {T E : Type 0} → ℕ → ℕ → Scsi T E ℕ
checked_end offset count =
    if ltb (offset + count) (2 ^ 64)
    then ret (offset + count)
    else fail (scsi ScsiError.logical_block_address_out_of_range)

-- The test for the 10-byte commands: `u32::MAX` and `u16::MAX` are excluded.
abbrev pub fits_10 : ℕ → ℕ → Bool
fits_10 end count = ltb end (2 ^ 32 - 1) && ltb count (2 ^ 16 - 1)

-- The operation codes of the table `CMDS`.
abbrev commands : List ℕ
commands = 0x08 ∷ 0x28 ∷ 0xA8 ∷ 0x88 ∷ 0x0A ∷ 0x2A ∷ 0xAA ∷ 0x8A ∷ 0x9C ∷ 0x8E ∷ []

module _ {T E : Type 0} (tr : ScsiTransport T E) where
  -- The answers are only logged.
  unfoldable pub query_each : List ℕ → Scsi T E (Unit {0})
  query_each [] = ret tt
  query_each (c ∷ cs) = report_supported_operation_codes tr c none >>= λ _. query_each cs

  unfoldable pub query_commands : Scsi T E (Unit {0})
  query_commands = query_each commands

  abbrev info_of : ℕ × ℕ → Scsi T E DeviceInfo
  info_of (blocks, block_size) = ret (record { blocks = blocks; block_size = block_size })

  abbrev by_capacity : ℕ × ℕ → Scsi T E (ℕ × ℕ)
  by_capacity capacity10 =
      if capacity10.0 == 0xFFFF_FFFF then read_capacity_16 tr else ret capacity10

  unfoldable pub device_info : Scsi T E DeviceInfo
  device_info = do
    capacity10 ← read_capacity_10 tr
    capacity ← by_capacity capacity10
    info_of capacity

  -- The result is the caller's buffer afterwards.
  unfoldable pub read_blocks : ℕ → ℕ → Bytes → Scsi T E Bytes
  read_blocks offset count buf = do
    end ← checked_end offset count
    r ←
        (if fits_10 end count
          then read_10 tr (offset % 2 ^ 32) (count % 2 ^ 16) buf
          else read_16 tr offset count buf)
    if ltb r.0 (length buf) then fail protocol_error else ret r.1

  unfoldable pub write_blocks : ℕ → ℕ → Bytes → Scsi T E (Unit {0})
  write_blocks offset count buf = do
    end ← checked_end offset count
    sz ←
        (if fits_10 end count
          then write_10 tr (offset % 2 ^ 32) (count % 2 ^ 16) buf
          else write_16 tr offset count buf)
    ret tt
