-- ===== src/UsbHost/BitSet/Laws.antt =====
-- cotton-usb-host/src/bitset.rs: each operation as a change to a set of integers.
use cotton.Prelude.{
  ℕ, zero, suc, ◌/◌, ◌%◌, ◌^◌, ◌≤◌, ◌<◌, ◌≡◌, ◌⊎◌, inl, inr, Bool, true, false, not, ◌&&◌, ◌||◌,
  Option, none, some, bit_and, bit_or, ◌==◌, leb, Bool-cases, lt→ltb, arith,
}
use cotton.Prelude.Bits.{
  bit, bit-lt-two, bit-bit_and, bit-bit_or, bit-two_pow, bit-complement, bit_and-lt, bit_or-lt,
  two_pow_mono, bit_and-two_pow_clear, bit_and-two_pow_set,
}
use cotton.Prelude.Outcome.{Outcome, returns}
use cotton.UsbHost.BitSet.{BitSet, complement, set, clear, contains, trailing_ones, set_any}

-- The bits fit the u32.
abbrev pub IsValid : BitSet → Type 0
IsValid s = s.bits < 2 ^ 32

-- The set of integers that the bits stand for.
abbrev pub view : BitSet → ℕ → Bool
view s n = bit n s.bits == 1

-- `s'` is a valid set with the members that `f` tells.
pub record Shows (f : ℕ → Bool) (s' : BitSet) : Type 0 where
  pub valid : IsValid s'
  pub members : (m : ℕ) → m < 32 → view s' m ≡ f m

-- `set` of an integer below 32 on a set within 32 bits adds that integer and changes no other.
pub set_in_range :
    (s : BitSet) (n : ℕ)
    → IsValid s
    → n < 32
    → (s' : BitSet) × (set s n ≡ returns s') × Shows (λ m. m == n || view s m) s'
unfolding set
set_in_range s n v h = (
  record { bits = bit_or s.bits (2 ^ n) },
  rw (lt→ltb n 32 h),
  record {
    valid = bit_or-lt 32 s.bits (2 ^ n) v (two_pow_mono n 32 h);
    members =
        λ m l. ground (arith, bit-bit_or m s.bits (2 ^ n), bit-two_pow m n, bit-lt-two m s.bits);
  },
)

-- `clear` of an integer below 32 on a set within 32 bits removes that integer and changes no other.
pub clear_in_range :
    (s : BitSet) (n : ℕ)
    → IsValid s
    → n < 32
    → (s' : BitSet) × (clear s n ≡ returns s') × Shows (λ m. not (m == n) && view s m) s'
unfolding clear
clear_in_range s n v h = (
  record { bits = bit_and s.bits (complement (2 ^ n)) },
  rw (lt→ltb n 32 h),
  record {
    valid = bit_and-lt 32 s.bits (complement (2 ^ n)) v;
    members = λ m l. ground (
      arith,
      bit-bit_and m s.bits (complement (2 ^ n)),
      bit-complement 32 m (2 ^ n) l (two_pow_mono n 32 h),
      bit-two_pow m n,
      bit-lt-two m s.bits,
    );
  },
)

bit_cases : (s : BitSet) (n : ℕ) → (bit n s.bits ≡ 0) ⊎ (bit n s.bits ≡ 1)
bit_cases s n = omega (arith, bit-lt-two n s.bits)

-- `contains` of an integer below 32 on a set within 32 bits says whether it is a member, and does
-- not panic.
pub contains_in_range :
    (s : BitSet) (n : ℕ) → IsValid s → n < 32 → contains s n ≡ returns (view s n)
unfolding contains
contains_in_range s n v h = elim (bit_cases s n) [
  | inl e ↦ rw (lt→ltb n 32 h, bit_and-two_pow_clear 32 n s.bits v e, e)
  | inr e ↦ ground (arith, bit_and-two_pow_set n s.bits e)
]

-- The bits below the result are set, and the next one is not.
trailing_ones_lem :
    (w x : ℕ)
    → (trailing_ones w x ≤ w)
      × ((m : ℕ) → m < trailing_ones w x → bit m x ≡ 1)
      × (trailing_ones w x < w → bit (trailing_ones w x) x ≡ 0)
unfolding trailing_ones
trailing_ones_lem zero x = (omega arith, λ m h. elim h [ ], λ h. elim h [ ])
trailing_ones_lem (suc w) x =
    let (small, ones, stop) = trailing_ones_lem w (x / 2) in
    elim (Bool-cases (x % 2 == 1)) [
      | inl e ↦
          rw (e, trailing_ones) (omega arith, below ones (ground arith), λ h. stop (omega arith))
      | inr e ↦ rw (e, trailing_ones) (omega arith, λ m h. elim h [ ], λ h. ground arith)
    ]
  where
    below :
        ((m : ℕ) → m < trailing_ones w (x / 2) → bit m (x / 2) ≡ 1)
        → x % 2 ≡ 1
        → (m : ℕ) → m < suc (trailing_ones w (x / 2))
        → bit m x ≡ 1
    below ones odd zero h = odd
    below ones odd (suc m) h = ones m (omega arith)

-- `set_any` adds the least integer that is not present, and says none only of a full set.
pub data SetsAny (s : BitSet) : Outcome (Option ℕ × BitSet) → Type 0 where
  full : ((m : ℕ) → m < 32 → view s m ≡ true) → SetsAny s (returns (none, s))
  added :
      (n : ℕ) (s' : BitSet)
      → n < 32
      → view s n ≡ false
      → ((m : ℕ) → m < n → view s m ≡ true)
      → Shows (λ m. m == n || view s m) s'
      → SetsAny s (returns (some n, s'))

-- On a set within 32 bits `set_any` adds the least integer that is not in the set and returns it,
-- or says none, of a full set only; it never panics.
pub set_any-SetsAny : (s : BitSet) → IsValid s → SetsAny s (set_any s)
unfolding set_any
set_any-SetsAny s v =
    let n = trailing_ones 32 s.bits in
    let (small, ones, stop) = trailing_ones_lem 32 s.bits in
    elim (Bool-cases (leb 32 n)) [
      | inl e ↦ rw e (full λ m h. ground (arith, ones m (ground arith)))
      | inr e ↦
          let (s', runs, shows) = set_in_range s n v (ground arith) in
          rw (e, runs)
            (added n s' (ground arith) (ground (arith, stop (ground arith)))
              (λ m h. ground (arith, ones m h)) shows)
    ]
