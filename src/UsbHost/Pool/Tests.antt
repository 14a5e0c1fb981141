-- ===== src/UsbHost/Pool/Tests.antt =====
-- cotton-usb-host/src/async_pool.rs: a pool of two.
use cotton.Prelude.Bits.{bit-zero}
use cotton.Prelude.{
  ◌⊎◌, ℕ, zero, suc, ◌<◌, ◌≡◌, refl, true, false, Option, some, none, [], ◌∷◌, arith,
}
use cotton.Prelude.Outcome.{returns, ◌>>=◌}
use cotton.UsbHost.BitSet
use cotton.UsbHost.Pool.{Pool, new, poll, dealloc_internal, alloc_internal}
use cotton.UsbHost.Pool.Laws.{
  IsValid, is_taken, Allocates, alloc_internal-Allocates, poll-poll-dealloc_internal,
}
use cotton.UsbHost.Pool.Ownership.{here, next, ready, count, held_once}

abbrev pool_of : ℕ → Option ℕ → Pool ℕ
pool_of bits w = record { total = 2; allocated = record { bits = bits }; waker = w }

runs :
    (new 2 ≡ returns (pool_of 0 none))
    × (poll (pool_of 0 none) 7 ≡ returns (some 0, pool_of 1 (some 7)))
unfolding new poll alloc_internal BitSet.new BitSet.set_any BitSet.trailing_ones BitSet.set
runs = (refl, refl)

drops : dealloc_internal (pool_of 1 (some 7)) 0 ≡ returns (some 7, pool_of 0 none)
unfolding dealloc_internal BitSet.contains BitSet.clear
drops = refl

pool_of-IsValid : (w : Option ℕ) → IsValid (pool_of 3 w)
pool_of-IsValid w = record { bits = omega arith; total_fits = omega arith; within = within }
  where
    within : (n : ℕ) → n < 32 → is_taken (pool_of 3 w) n ≡ true → n < 2
    within zero l h = omega arith
    within (suc zero) l h = omega arith
    within (suc (suc n)) l h = ground (arith, bit-zero n)

alloc_internal-Allocates_example : Allocates (pool_of 3 none) (alloc_internal (pool_of 3 none))
alloc_internal-Allocates_example = alloc_internal-Allocates (pool_of 3 none) (pool_of-IsValid none)

two_taken : (n : ℕ) → n < 2 → is_taken (pool_of 3 none) n ≡ true
two_taken zero l = refl
two_taken (suc zero) l = refl
two_taken (suc (suc n)) l = absurd (omega arith)

poll-poll-dealloc_internal_example :
    (p' : Pool ℕ) × ((poll (pool_of 3 none) 7 >>= λ r. poll r.1 8 >>= λ s. dealloc_internal s.1 1)
      ≡ returns (some 8, p'))
    × (p'.waker ≡ none)
    × (is_taken p' 1 ≡ false)
poll-poll-dealloc_internal_example =
    poll-poll-dealloc_internal (pool_of 3 none) 7 8 1 (pool_of-IsValid none) two_taken (omega arith)

held_once_example : (count 0 (0 ∷ []) ≡ 0) ⊎ ((count 0 (0 ∷ []) ≡ 1) × (0 < 2))
held_once_example =
    held_once ℕ 2 (pool_of 0 none) (record { pool = pool_of 1 (some 7); held = 0 ∷ [] }) 0 runs.0
      (next here (ready 7 0 (pool_of 1 (some 7)) runs.1))
