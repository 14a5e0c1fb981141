-- ===== src/Unique/Laws.antt =====
-- cotton-unique/src/lib.rs: the bits of a MAC address.
use cotton.Prelude.{
  ℕ, zero, suc, ◌/◌, ◌%◌, ◌≤◌, ◌<◌, ◌≡◌, refl, ap, ◌∙◌, min, max, List, drop, length, get_or,
  bit_and, bit_or, arith,
}
use cotton.Prelude.Bits.{bit, bit-lt-two, bit-bit_and, bit-bit_or}
use cotton.Prelude.Bytes.{Bytes, to_le_bytes}
use cotton.Unique.{UniqueId, id, mac_address}

-- A MAC address of one interface that its maker has not registered: six bytes, of which the first has
-- the bit of multicasts clear and that of local addresses set; the other bits are those of a number.
pub record IsLocal (n : ℕ) (mac : Bytes) : Type 0 where
  pub size : length mac ≡ 6
  pub unicast : bit 0 (get_or mac 0 0) ≡ 0
  pub local : bit 1 (get_or mac 0 0) ≡ 1
  pub rest : (m : ℕ) → 2 ≤ m → m < 8 → bit m (get_or mac 0 0) ≡ bit m (n % 256)
  pub others : drop 1 mac ≡ to_le_bytes 5 (n / 256)

mask_bits : (m : ℕ) → 2 ≤ m → m < 8 → (bit m 0xFE ≡ 1) × (bit m 2 ≡ 0)
mask_bits zero a b = absurd (omega arith)
mask_bits (suc zero) a b = absurd (omega arith)
mask_bits (suc (suc zero)) a b = (refl, refl)
mask_bits (suc (suc (suc zero))) a b = (refl, refl)
mask_bits (suc (suc (suc (suc zero)))) a b = (refl, refl)
mask_bits (suc (suc (suc (suc (suc zero))))) a b = (refl, refl)
mask_bits (suc (suc (suc (suc (suc (suc zero)))))) a b = (refl, refl)
mask_bits (suc (suc (suc (suc (suc (suc (suc zero))))))) a b = (refl, refl)
mask_bits (suc (suc (suc (suc (suc (suc (suc (suc m)))))))) a b = absurd (omega arith)

bit_of_first :
    (m x : ℕ) → bit m (bit_or (bit_and x 0xFE) 2) ≡ max (min (bit m x) (bit m 0xFE)) (bit m 2)
bit_of_first m x =
    bit-bit_or m (bit_and x 0xFE) 2 ∙ ap (λ b. max b (bit m 2)) (bit-bit_and m x 0xFE)

-- mac_address is a local MAC address, and all its other bits are those of the identifier.
pub mac_address-IsLocal :
    (sip_hash : ℕ → ℕ → List Bytes → ℕ) (unique : UniqueId) (salt : Bytes)
    → IsLocal (id sip_hash unique salt) (mac_address sip_hash unique salt)
unfolding mac_address
mac_address-IsLocal sip_hash unique salt =
    let n : ℕ = id sip_hash unique salt in
    record {
      size = refl;
      unicast = bit_of_first 0 (n % 256) ∙ omega arith;
      local = bit_of_first 1 (n % 256) ∙ omega (arith, bit-lt-two 1 (n % 256));
      rest = λ m a b.
          bit_of_first m (n % 256) ∙ omega (arith, mask_bits m a b, bit-lt-two m (n % 256));
      others = refl;
    }
