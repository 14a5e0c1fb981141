-- ===== src/Msc/Wrapper/OnWire.antt =====
-- cotton-usb-host-msc/src/mass_storage.rs: the command block wrapper as a device reads it.
use cotton.Prelude.{
  ℕ, zero, suc, ◌-◌, ◌≤◌, ◌<◌, ◌^◌, ◌≡◌, refl, ap, true, [], ◌∷◌, ◌++◌, length, take, drop,
  replicate, get_or, length-append, length-replicate, length-take, leb, arith,
}
use cotton.Prelude.Bytes.{Bytes, from_le_bytes, from_le_bytes-to_le_bytes}
use cotton.Prelude.Outcome.{Outcome, returns, panics}
use cotton.Msc.Wrapper.{CommandBlockWrapper, new, bytes_of}

-- The wrapper of the USB bulk-only transport, table 5.1: little-endian signature, tag and length at
-- bytes 0, 4 and 8, the flags at 12, the unit at 13, the command's length at 14, and the command in
-- the 16 bytes that follow it.
pub record IsWrapper (bytes : Bytes) (tag len flags : ℕ) (cmd : Bytes) : Type 0 where
  pub size : length bytes ≡ 31
  pub signature_at : from_le_bytes (take 4 bytes) ≡ 0x43425355
  pub tag_at : from_le_bytes (take 4 (drop 4 bytes)) ≡ tag
  pub length_at : from_le_bytes (take 4 (drop 8 bytes)) ≡ len
  pub flags_at : get_or bytes 12 0 ≡ flags
  pub lun_at : get_or bytes 13 0 ≡ 0
  pub command_length_at : get_or bytes 14 0 ≡ length cmd
  pub command_at : take (length cmd) (drop 15 bytes) ≡ cmd

abbrev pub OnWire : ℕ → ℕ → ℕ → Bytes → Outcome CommandBlockWrapper → Type 0
OnWire tag len flags cmd panics = ⊥
OnWire tag len flags cmd (returns c) = IsWrapper (take 31 (bytes_of c)) tag len flags cmd

abbrev padded : Bytes → Bytes
padded cmd = cmd ++ replicate (17 - length cmd) 0

take_command :
    (cmd rest : Bytes) (n : ℕ) → length cmd ≤ n → take (length cmd) (take n (cmd ++ rest)) ≡ cmd
take_command [] rest n h = refl
take_command (b ∷ cmd) rest zero h = absurd (omega arith)
take_command (b ∷ cmd) rest (suc n) h = ap (λ l. b ∷ l) (take_command cmd rest n (omega arith))

-- For a command of 16 bytes or fewer, and a tag and a length that fit 32 bits, the 31 bytes that go
-- out carry each field where the bulk-only transport has it.
pub new-OnWire :
    (tag len flags : ℕ) (cmd : Bytes)
    → tag < 2 ^ 32
    → len < 2 ^ 32
    → length cmd ≤ 16
    → OnWire tag len flags cmd (new tag len flags cmd)
unfolding new bytes_of
new-OnWire tag len flags cmd ht hl hc = rw within_array (record {
  size = omega (
    arith,
    length-take 16 (padded cmd),
    length-append cmd (replicate (17 - length cmd) 0),
    length-replicate {A = ℕ} (17 - length cmd) 0,
  );
  signature_at = refl;
  tag_at = from_le_bytes-to_le_bytes 4 tag ht;
  length_at = from_le_bytes-to_le_bytes 4 len hl;
  flags_at = refl;
  lun_at = refl;
  command_length_at = omega arith;
  command_at = take_command cmd (replicate (17 - length cmd) 0) 16 hc;
})
  where
    within_array : leb (length cmd) 17 ≡ true
    within_array = ground arith
