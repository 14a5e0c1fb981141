-- ===== src/Prelude/Bits.antt =====
-- `|` and `&` at variables, through the digits of a number: the libraries have no such laws.
use Prim.Native.Nat.{ℕ, zero, suc, ◌+◌, ◌-◌, ◌*◌, ◌/◌, ◌%◌, ◌^◌, ◌≤◌, ◌<◌, min, max}
use Prim.Native.Nat.{bit_and, bit_or, digits, bit_and-bitwise, bit_or-bitwise}
use mathlib.Core.Path.{◌≡◌, refl, sym, ◌∙◌, ap}
use native.Mathlib.Nat.{pow-suc, one-le-pow}
use mathlib.Core.Logic.{◌≢◌}
use native.Mathlib.Omega.{arith}
use cotton.Prelude.Tests.{◌==◌, if◌then◌else◌}

-- Bit `n` of `x`, as 0 or 1.
abbrev pub bit : ℕ → ℕ → ℕ
bit zero x = x % 2
bit (suc n) x = bit n (x / 2)

pub bit-lt-two : (n x : ℕ) → bit n x < 2
bit-lt-two zero x = omega arith
bit-lt-two (suc n) x = bit-lt-two n (x / 2)

pub bit-zero : (n : ℕ) → bit n 0 ≡ 0
bit-zero zero = refl
bit-zero (suc n) = bit-zero n

-- The recursion behind the native operations: no digits are left of 0, whatever the fuel, and more
-- fuel than its first number needs makes no difference.
no_digits : (base : ℕ → ℕ) (op : ℕ → ℕ → ℕ) (fuel y : ℕ) → digits base op fuel 0 y ≡ base y
no_digits base op zero y = refl
no_digits base op (suc fuel) y = refl

more_fuel :
    (base : ℕ → ℕ) (op : ℕ → ℕ → ℕ) (x y fuel more : ℕ)
    → x ≤ fuel
    → fuel ≤ more
    → digits base op more x y ≡ digits base op fuel x y
more_fuel base op zero y fuel more h l = no_digits base op more y ∙ sym (no_digits base op fuel y)
more_fuel base op (suc x) y zero more h l = absurd (omega arith)
more_fuel base op (suc x) y (suc fuel) zero h l = absurd (omega arith)
more_fuel base op (suc x) y (suc fuel) (suc more) h l =
    ap (λ high. high * 2 + op (suc x % 2) (y % 2))
      (more_fuel base op (suc x / 2) (y / 2) fuel more (omega arith) (omega arith))

-- So the lowest digit stands apart from the others.
last_digit :
    (base : ℕ → ℕ) (op : ℕ → ℕ → ℕ) (x y : ℕ)
    → digits base op (suc x) (suc x) y
      ≡ digits base op (suc x / 2) (suc x / 2) (y / 2) * 2 + op (suc x % 2) (y % 2)
last_digit base op x y =
    ap (λ high. high * 2 + op (suc x % 2) (y % 2))
      (more_fuel base op (suc x / 2) (y / 2) (suc x / 2) x (omega arith) (omega arith))

and_last_digit : (x y : ℕ) → bit_and x y ≡ bit_and (x / 2) (y / 2) * 2 + min (x % 2) (y % 2)
and_last_digit zero y = rw (bit_and-bitwise 0 y, bit_and-bitwise 0 (y / 2)) (omega arith)
and_last_digit (suc x) y =
    rw (bit_and-bitwise (suc x) y, bit_and-bitwise (suc x / 2) (y / 2))
      (last_digit (λ y. zero) min x y)

or_last_digit : (x y : ℕ) → bit_or x y ≡ bit_or (x / 2) (y / 2) * 2 + max (x % 2) (y % 2)
or_last_digit zero y = rw (bit_or-bitwise 0 y, bit_or-bitwise 0 (y / 2)) (omega arith)
or_last_digit (suc x) y =
    rw (bit_or-bitwise (suc x) y, bit_or-bitwise (suc x / 2) (y / 2)) (last_digit (λ y. y) max x y)

half-bit_and : (a b : ℕ) → bit_and a b / 2 ≡ bit_and (a / 2) (b / 2)
half-bit_and a b = omega (arith, and_last_digit a b)

half-bit_or : (a b : ℕ) → bit_or a b / 2 ≡ bit_or (a / 2) (b / 2)
half-bit_or a b = omega (arith, or_last_digit a b)

pub bit-bit_and : (n a b : ℕ) → bit n (bit_and a b) ≡ min (bit n a) (bit n b)
bit-bit_and zero a b = omega (arith, and_last_digit a b)
bit-bit_and (suc n) a b = ap (bit n) (half-bit_and a b) ∙ bit-bit_and n (a / 2) (b / 2)

pub bit-bit_or : (n a b : ℕ) → bit n (bit_or a b) ≡ max (bit n a) (bit n b)
bit-bit_or zero a b = omega (arith, or_last_digit a b)
bit-bit_or (suc n) a b = ap (bit n) (half-bit_or a b) ∙ bit-bit_or n (a / 2) (b / 2)

half-two_pow : (k : ℕ) → 2 ^ suc k / 2 ≡ 2 ^ k
half-two_pow k = omega (arith, pow-suc 2 k)

-- `1 << k` has the one bit.
pub bit-two_pow : (n k : ℕ) → bit n (2 ^ k) ≡ (if n == k then 1 else 0)
bit-two_pow zero zero = refl
bit-two_pow zero (suc k) = ground (arith, pow-suc 2 k)
bit-two_pow (suc n) zero = ground (arith, bit-zero n)
bit-two_pow (suc n) (suc k) = ground (arith, ap (bit n) (half-two_pow k), bit-two_pow n k)

-- `!x` on `w` bits flips each of them.
pub bit-complement : (w n x : ℕ) → n < w → x < 2 ^ w → bit n (2 ^ w - 1 - x) ≡ 1 - bit n x
bit-complement zero n x h l = elim h [ ]
bit-complement (suc w) zero x h l = omega (arith, pow-suc 2 w)
bit-complement (suc w) (suc n) x h l =
    ap (bit n) halved ∙ bit-complement w n (x / 2) (omega arith) (omega (arith, pow-suc 2 w))
  where
    halved : (2 ^ suc w - 1 - x) / 2 ≡ 2 ^ w - 1 - x / 2
    halved = omega (arith, pow-suc 2 w)

-- Words of `w` bits are equal if their bits are.
pub eq_of_bits : (w a b : ℕ) → a < 2 ^ w → b < 2 ^ w → ((n : ℕ) → n < w → bit n a ≡ bit n b) → a ≡ b
eq_of_bits zero a b p q h = omega arith
eq_of_bits (suc w) a b p q h = omega (
  arith,
  h 0 (omega arith),
  eq_of_bits w (a / 2) (b / 2) (omega (arith, pow-suc 2 w)) (omega (arith, pow-suc 2 w))
      (λ n l. h (suc n) (omega arith)),
)

pub bit_and-lt : (w a b : ℕ) → a < 2 ^ w → bit_and a b < 2 ^ w
bit_and-lt zero a b h =
    let e : a ≡ 0 = omega arith in omega (arith, ap (λ (t : ℕ). bit_and t b) e, bit_and-bitwise 0 b)
bit_and-lt (suc w) a b h = omega (
  arith,
  pow-suc 2 w,
  and_last_digit a b,
  bit_and-lt w (a / 2) (b / 2) (omega (arith, pow-suc 2 w)),
)

pub bit_or-lt : (w a b : ℕ) → a < 2 ^ w → b < 2 ^ w → bit_or a b < 2 ^ w
bit_or-lt zero a b h k =
    let e : a ≡ 0 = omega arith in omega (arith, ap (λ (t : ℕ). bit_or t b) e, bit_or-bitwise 0 b)
bit_or-lt (suc w) a b h k = omega (
  arith,
  pow-suc 2 w,
  or_last_digit a b,
  bit_or-lt w (a / 2) (b / 2) (omega (arith, pow-suc 2 w)) (omega (arith, pow-suc 2 w)),
)

pub two_pow_mono : (n w : ℕ) → n < w → 2 ^ n < 2 ^ w
two_pow_mono n zero h = elim h [ ]
two_pow_mono zero (suc w) h = omega (arith, pow-suc 2 w, one-le-pow w 2)
two_pow_mono (suc n) (suc w) h =
    omega (arith, pow-suc 2 w, pow-suc 2 n, two_pow_mono n w (omega arith))

-- `x & (1 << n)` tests bit `n`.
pub bit_and-two_pow_clear : (w n x : ℕ) → x < 2 ^ w → bit n x ≡ 0 → bit_and x (2 ^ n) ≡ 0
bit_and-two_pow_clear w n x h e =
    eq_of_bits w _ 0 (bit_and-lt w x (2 ^ n) h) (omega (arith, one-le-pow w 2))
      λ m l. ground (arith, bit-bit_and m x (2 ^ n), bit-two_pow m n, bit-zero m)

pub bit_and-two_pow_set : (n x : ℕ) → bit n x ≡ 1 → bit_and x (2 ^ n) ≢ 0
bit_and-two_pow_set n x e z =
    ground (arith, bit-bit_and n x (2 ^ n), bit-two_pow n n, bit-zero n, ap (bit n) z)

nothing_below : (fuel x : ℕ) → digits (λ y. zero) min fuel x 0 ≡ 0
nothing_below zero x = refl
nothing_below (suc fuel) zero = refl
nothing_below (suc fuel) (suc x) = omega (arith, nothing_below fuel (suc x / 2))

pub bit_and-zero : (x : ℕ) → bit_and x 0 ≡ 0
bit_and-zero x = bit_and-bitwise x 0 ∙ nothing_below x x

-- The mask of the `k` lowest bits, and the number that they make.
abbrev mask : ℕ → ℕ
mask zero = 0
mask (suc k) = mask k * 2 + 1

abbrev lowest : ℕ → ℕ → ℕ
lowest zero x = 0
lowest (suc k) x = lowest k (x / 2) * 2 + x % 2

bit_and-mask : (k x : ℕ) → bit_and x (mask k) ≡ lowest k x
bit_and-mask zero x = bit_and-zero x
bit_and-mask (suc k) x =
    let half : (mask k * 2 + 1) / 2 ≡ mask k = omega arith in
    and_last_digit x (mask (suc k)) ∙ rw (half, bit_and-mask k (x / 2)) (omega arith)

and_half : (x b : ℕ) → bit_and x (b * 2) ≡ bit_and (x / 2) b * 2
and_half x b =
    let half : b * 2 / 2 ≡ b = omega arith in and_last_digit x (b * 2) ∙ rw half (omega arith)

-- The highest bit of a byte.
pub bit_and_highest : (x : ℕ) → bit_and x 128 ≡ x / 128 % 2 * 128
bit_and_highest x = omega (
  arith,
  and_half x 64,
  and_half (x / 2) 32,
  and_half (x / 2 / 2) 16,
  and_half (x / 2 / 2 / 2) 8,
  and_half (x / 2 / 2 / 2 / 2) 4,
  and_half (x / 2 / 2 / 2 / 2 / 2) 2,
  and_half (x / 2 / 2 / 2 / 2 / 2 / 2) 1,
  bit_and-mask 1 (x / 2 / 2 / 2 / 2 / 2 / 2 / 2),
)

pub bit_and_seven : (x : ℕ) → bit_and x 7 ≡ x % 8
bit_and_seven x = bit_and-mask 3 x ∙ omega arith

pub bit_and_fifteen : (x : ℕ) → bit_and x 15 ≡ x % 16
bit_and_fifteen x = bit_and-mask 4 x ∙ omega arith

pub bit_and_byte : (x : ℕ) → bit_and x 255 ≡ x % 256
bit_and_byte x = bit_and-mask 8 x ∙ omega arith

le-bit_or_fuel : (n a b : ℕ) → a ≤ n → a ≤ bit_or a b
le-bit_or_fuel n zero b h = omega arith
le-bit_or_fuel zero (suc a) b h = absurd (omega arith)
le-bit_or_fuel (suc n) (suc a) b h =
    omega (arith, or_last_digit (suc a) b, le-bit_or_fuel n (suc a / 2) (b / 2) (omega arith))

pub le-bit_or : (a b : ℕ) → a ≤ bit_or a b
le-bit_or a b = le-bit_or_fuel a a b (omega arith)

pub lt-bit_or-two_pow : (a i : ℕ) → bit i a ≡ 0 → a < bit_or a (2 ^ i)
lt-bit_or-two_pow a i h =
    let differ : a ≢ bit_or a (2 ^ i) =
      (λ e. ground (arith, ap (bit i) e, bit-bit_or i a (2 ^ i), bit-two_pow i i)) in
    omega (arith, le-bit_or a (2 ^ i), differ)
