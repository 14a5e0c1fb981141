-- ===== src/UsbHost/BitSet.antt =====
-- cotton-usb-host/src/bitset.rs: a set of the integers 0 to 31 in the bits of a u32.
pub mod Laws
pub mod Iter
mod Tests
use cotton.Prelude.{
  ℕ, zero, suc, ◌+◌, ◌-◌, ◌/◌, ◌%◌, ◌^◌, Bool, true, false, not, Option, none, some, List, [], ◌∷◌,
  bit_and, bit_or, ◌==◌, ltb, leb, if◌then◌else◌,
}
use cotton.Prelude.Outcome.{Outcome, returns, panics, assert, ◌>>=◌, ◌>>◌}

-- `pub struct BitSet(pub u32)`
pub record BitSet : Type 0 where
  pub bits : ℕ

unfoldable pub new : BitSet
new = record { bits = 0 }

-- `!x` on a u32
abbrev pub complement : ℕ → ℕ
complement x = 2 ^ 32 - 1 - x

unfoldable pub set : BitSet → ℕ → Outcome BitSet
set s n = do assert (ltb n 32); returns (record { bits = bit_or s.bits (2 ^ n) })

unfoldable pub clear : BitSet → ℕ → Outcome BitSet
clear s n = do assert (ltb n 32); returns (record { bits = bit_and s.bits (complement (2 ^ n)) })

unfoldable pub contains : BitSet → ℕ → Outcome Bool
contains s n = do assert (ltb n 32); returns (not (bit_and s.bits (2 ^ n) == 0))

-- `trailing_ones` and `trailing_zeros` of a word of `w` bits
unfoldable pub trailing_ones : ℕ → ℕ → ℕ
trailing_ones zero x = 0
trailing_ones (suc w) x = let rest = trailing_ones w (x / 2) in if x % 2 == 1 then suc rest else 0

unfoldable pub trailing_zeros : ℕ → ℕ → ℕ
trailing_zeros zero x = 0
trailing_zeros (suc w) x = let rest = trailing_zeros w (x / 2) in if x % 2 == 0 then suc rest else 0

-- Returns the integer that was added, if any, and the set.
unfoldable pub set_any : BitSet → Outcome (Option ℕ × BitSet)
set_any s =
    let next = trailing_ones 32 s.bits in
    if leb 32 next then returns (none, s) else set s next >>= λ s'. returns (some next, s')

-- `BitIterator::next`: the item and the bits left over
unfoldable pub next : ℕ → Option (ℕ × ℕ)
next it =
    if it == 0
    then none
    else (let n = trailing_zeros 32 it in some (n, bit_and it (complement (2 ^ n))))

-- The items that a loop over the iterator sees. A word has at most 32 bits to visit, so 33 rounds
-- reach the `None` at the end.
unfoldable pub collect : ℕ → ℕ → List ℕ
collect zero it = []
collect (suc fuel) it = elim (next it) [ none ↦ [] | some (n, rest) ↦ n ∷ collect fuel rest ]

unfoldable pub iter : BitSet → List ℕ
iter s = collect 33 s.bits
