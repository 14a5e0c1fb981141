-- ===== src/Unique/Tests.antt =====
-- cotton-unique/src/lib.rs on concrete inputs.
use cotton.Prelude.{ℕ, ◌≡◌, refl, List, [], ◌∷◌, replicate}
use cotton.Prelude.Bytes.{Bytes, codes}
use cotton.Unique.{new, id, mac_address, unique_chip_id}

-- A hash that is always the same
abbrev constant : ℕ → ℕ → List Bytes → ℕ
constant low high writes = 0x1234_5678_9ABC_DEFF

from_chip : unique_chip_id (1 ∷ replicate 11 0) ≡ record { low = 1; high = 0 }
unfolding unique_chip_id new
from_chip = refl

some_address :
    mac_address constant (new (replicate 16 0)) (codes "eth0")
    ≡ 0xFE ∷ 0xDE ∷ 0xBC ∷ 0x9A ∷ 0x78 ∷ 0x56 ∷ []
unfolding mac_address id new
some_address = refl
