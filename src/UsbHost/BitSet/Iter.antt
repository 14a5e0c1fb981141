-- ===== src/UsbHost/BitSet/Iter.antt =====
-- cotton-usb-host/src/bitset.rs: the iterator yields the members in ascending order, each once.
use cotton.Prelude.{
  ℕ, zero, suc, ◌+◌, ◌/◌, ◌^◌, ◌≤◌, ◌<◌, ◌≡◌, refl, ◌∙◌, ap, inl, inr, Bool, none, some, List, [],
  ◌∷◌, bit_and, ◌==◌, if◌then◌else◌, Bool-cases, arith,
}
use cotton.Prelude.Bits.{
  bit, bit-lt-two, bit-zero, bit-bit_and, bit-two_pow, bit-complement, eq_of_bits, bit_and-lt,
  two_pow_mono,
}
use cotton.UsbHost.BitSet.{BitSet, complement, trailing_zeros, next, collect, iter}
use cotton.UsbHost.BitSet.Laws.{IsValid, view}

-- The members among `k`, `k + 1`, … `k + w - 1`, in this order.
unfoldable pub ascending : (ℕ → Bool) → ℕ → ℕ → List ℕ
ascending f k zero = []
ascending f k (suc w) = let rest = ascending f (suc k) w in if f k then k ∷ rest else rest

ascending_cong :
    (f g : ℕ → Bool) (k w : ℕ)
    → ((m : ℕ) → k ≤ m → m < k + w → f m ≡ g m)
    → ascending f k w ≡ ascending g k w
unfolding ascending
ascending_cong f g k zero h = refl
ascending_cong f g k (suc w) h = ground (
  arith,
  h k (omega arith) (omega arith),
  ascending_cong f g (suc k) w (λ m p q. h m (omega arith) (omega arith)),
)

trailing_zeros_lem :
    (w k x : ℕ) → k < w → ((m : ℕ) → m < k → bit m x ≡ 0) → bit k x ≡ 1 → trailing_zeros w x ≡ k
unfolding trailing_zeros
trailing_zeros_lem zero k x l h e = elim l [ ]
trailing_zeros_lem (suc w) zero x l h e = ground arith
trailing_zeros_lem (suc w) (suc k) x l h e = ground (
  arith,
  h 0 (omega arith),
  trailing_zeros_lem w k (x / 2) (omega arith) (λ m p. h (suc m) (omega arith)) e,
)

-- The state of the iterator before it visits bit `k`: what is left are the bits from `k` on.
record IsAt (k it : ℕ) : Type 0 where
  fits : it < 2 ^ 32
  done : (m : ℕ) → m < k → bit m it ≡ 0

rest_bits :
    (k m it : ℕ)
    → k < 32
    → m < 32
    → bit m (bit_and it (complement (2 ^ k))) ≡ (if m == k then 0 else bit m it)
rest_bits k m it h l = ground (
  arith,
  bit-bit_and m it (complement (2 ^ k)),
  bit-complement 32 m (2 ^ k) l (two_pow_mono k 32 h),
  bit-two_pow m k,
  bit-lt-two m it,
)

IsAt-end : (it : ℕ) → IsAt 32 it → it ≡ 0
IsAt-end it a =
    eq_of_bits 32 it 0 a.fits (omega arith) (λ m l. ground (arith, a.done m l, bit-zero m))

IsAt-skip : (k it : ℕ) → IsAt k it → bit k it ≡ 0 → IsAt (suc k) it
IsAt-skip k it a e = record {
  fits = a.fits;
  done = λ m l. elim (Bool-cases (m == k)) [
    | inl q ↦ let r : m ≡ k = ground arith in rw r e
    | inr q ↦ a.done m (ground arith)
  ];
}

IsAt-take : (k it : ℕ) → k < 32 → IsAt k it → IsAt (suc k) (bit_and it (complement (2 ^ k)))
IsAt-take k it h a = record {
  fits = bit_and-lt 32 it (complement (2 ^ k)) a.fits;
  done = λ m l. elim (Bool-cases (m == k)) [
    | inl q ↦ rest_bits k m it h (omega arith) ∙ rw q
    | inr q ↦ rest_bits k m it h (omega arith) ∙ rw q (a.done m (ground arith))
  ];
}

next_lem :
    (k it : ℕ)
    → k < 32
    → IsAt k it
    → bit k it ≡ 1
    → next it ≡ some (k, bit_and it (complement (2 ^ k)))
unfolding next
next_lem k it h a e = elim (Bool-cases (it == 0)) [
  | inl z ↦ let q : it ≡ 0 = ground arith in ground (arith, ap (bit k) q, bit-zero k)
  | inr z ↦ rw (z, trailing_zeros_lem 32 k it h a.done e)
]

next-zero : next 0 ≡ none
unfolding next
next-zero = refl

collect_lem :
    (w k it fuel : ℕ)
    → k + w ≡ 32
    → w < fuel
    → IsAt k it
    → collect fuel it ≡ ascending (λ m. bit m it == 1) k w
unfolding collect ascending
collect_lem w k it zero e f a = elim f [ ]
collect_lem zero k it (suc fuel) e f a =
    let z = IsAt-end it (record { fits = a.fits; done = λ m l. a.done m (omega arith) }) in
    rw (z, collect, next-zero)
collect_lem (suc w) k it (suc fuel) e f a = elim (Bool-cases (bit k it == 1)) [
  | inl one ↦
      let h : k < 32 = omega arith in
      let rest : ℕ = bit_and it (complement (2 ^ k)) in
      let same =
        ascending_cong (λ m. bit m rest == 1) (λ m. bit m it == 1) (suc k) w
          (λ m p q. rw (rest_bits k m it h (omega arith)) (ground arith)) in
      rw (one, collect, next_lem k it h a (ground arith))
        (ap (λ l. k ∷ l)
          (collect_lem w (suc k) rest fuel (omega arith) (omega arith) (IsAt-take k it h a) ∙ same))
  | inr clear ↦ rw clear (
      collect_lem w (suc k) it (suc fuel) (omega arith) (omega arith)
        (IsAt-skip k it a (ground (arith, bit-lt-two k it))))
]

-- `iter` of a set within 32 bits yields exactly its members, each once, in ascending order.
pub iter_lem : (s : BitSet) → IsValid s → iter s ≡ ascending (view s) 0 32
unfolding iter
iter_lem s v =
    collect_lem 32 0 s.bits 33 refl (omega arith) (record { fits = v; done = λ m l. elim l [ ] })
