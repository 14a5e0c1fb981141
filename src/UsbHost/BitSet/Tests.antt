-- ===== src/UsbHost/BitSet/Tests.antt =====
-- cotton-usb-host/src/bitset.rs: runs and instances.
use cotton.Prelude.{◌≡◌, refl, none, some, [], ◌∷◌}
use cotton.Prelude.Outcome.{returns, panics}
use cotton.UsbHost.BitSet.{
  BitSet, new, set, set_any, trailing_ones, trailing_zeros, next, collect, iter,
}

abbrev sample : BitSet
sample = record { bits = 0x8000_0007 }

iterates : iter sample ≡ 0 ∷ 1 ∷ 2 ∷ 31 ∷ []
unfolding iter collect next trailing_zeros
iterates = refl

adds_least : set_any sample ≡ returns (some 3, record { bits = 0x8000_000f })
unfolding set_any trailing_ones set
adds_least = refl

full : set_any (record { bits = 0xffff_ffff }) ≡ returns (none, record { bits = 0xffff_ffff })
unfolding set_any trailing_ones
full = refl

refuses : set new 32 ≡ panics
unfolding set
refuses = refl
