-- ===== src/Msc/Wrapper.antt =====
-- cotton-usb-host-msc/src/mass_storage.rs: the command block wrapper.
pub mod OnWire
use cotton.Prelude.{
  ℕ, zero, suc, ◌+◌, ◌-◌, ◌≤◌, ◌<◌, ◌%◌, ◌^◌, ◌≡◌, refl, ◌∙◌, ap, Bool, true, false, List, [], ◌∷◌,
  ◌++◌, length, take, drop, replicate, length-append, length-replicate, take_exact, drop_exact,
  append_assoc, leb, if◌then◌else◌, arith,
}
use cotton.Prelude.Bytes.{
  Bytes, to_le_bytes, from_le_bytes, length-to_le_bytes, from_le_bytes-to_le_bytes,
}
use cotton.Prelude.Outcome.{Outcome, returns, panics}

-- `CommandBlockWrapper`, whose `command` array has 17 bytes
pub record CommandBlockWrapper : Type 0 where
  pub signature : ℕ
  pub tag : ℕ
  pub data_transfer_length : ℕ
  pub flags : ℕ
  pub lun : ℕ
  pub command_length : ℕ
  pub command : Bytes

-- `cbw.command[0..command.len()]` panics if the command is longer than the array.
unfoldable pub new : ℕ → ℕ → ℕ → Bytes → Outcome CommandBlockWrapper
new tag data_transfer_length flags command =
    if leb (length command) 17
    then returns (record {
      signature = 0x43425355;
      tag = tag;
      data_transfer_length = data_transfer_length;
      flags = flags;
      lun = 0;
      command_length = length command % 256;
      command = command ++ replicate (17 - length command) 0;
    })
    else panics

-- `bytemuck::bytes_of`, on a little-endian machine
unfoldable pub bytes_of : CommandBlockWrapper → Bytes
bytes_of c =
    to_le_bytes 4 c.signature
    ++ (to_le_bytes 4 c.tag
        ++ (to_le_bytes 4 c.data_transfer_length
            ++ (c.flags ∷ c.lun ∷ c.command_length ∷ c.command)))
