-- ===== src/Unique.antt =====
-- cotton-unique/src/lib.rs: identifiers from the identifier of a chip.
pub mod Laws
mod Tests
use cotton.Prelude.{
  ℕ, ◌*◌, ◌^◌, ◌%◌, List, [], ◌∷◌, ◌++◌, take, drop, get_or, set, replicate, bit_and, bit_or,
}
use cotton.Prelude.Bytes.{Bytes, to_le_bytes, to_be_bytes, from_le_bytes}

-- `id` has two numbers below 2 ^ 64.
pub record UniqueId : Type 0 where
  pub low : ℕ
  pub high : ℕ

-- Of 16 bytes.
unfoldable pub new : Bytes → UniqueId
new unique_bytes = record {
  low = from_le_bytes (take 8 unique_bytes);
  high = from_le_bytes (take 8 (drop 8 unique_bytes));
}

-- The keyed hash of the crate siphasher: two keys, and what is written to it, call by call.
module _ (sip_hash : ℕ → ℕ → List Bytes → ℕ) where
  unfoldable pub id : UniqueId → Bytes → ℕ
  id unique salt = sip_hash unique.low unique.high (salt ∷ [])

  -- `write_u32` writes the bytes of a number on a little-endian machine.
  unfoldable pub id2 : UniqueId → Bytes → ℕ → ℕ
  id2 unique salt salt2 = sip_hash unique.low unique.high (salt ∷ to_le_bytes 4 salt2 ∷ [])

  unfoldable pub mac_address : UniqueId → Bytes → Bytes
  mac_address unique salt =
      let r = take 6 (to_le_bytes 8 (id unique salt)) in
      let unicast = set r 0 (bit_and (get_or r 0 0) 0xFE) in
      set unicast 0 (bit_or (get_or unicast 0 0) 2)

  -- `Uuid::new_v8` of the crate uuid makes a `U` of 16 bytes.
  unfoldable pub uuid : {U : Type 0} → (Bytes → U) → UniqueId → Bytes → U
  uuid new_v8 unique salt =
      new_v8 (to_be_bytes 8 (id2 unique salt 0) ++ to_be_bytes 8 (id2 unique salt 1))

-- STM32: a chip identifier of 12 bytes.
unfoldable pub unique_chip_id : Bytes → UniqueId
unique_chip_id id = new (id ++ replicate 4 0)
