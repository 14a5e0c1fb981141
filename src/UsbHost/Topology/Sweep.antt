-- ===== src/UsbHost/Topology/Sweep.antt =====
-- cotton-usb-host/src/topology.rs: one pass of the inner loop of `device_disconnect`.
use cotton.Prelude.{
  ℕ, zero, suc, ◌+◌, ◌/◌, ◌%◌, ◌^◌, ◌≤◌, ◌<◌, ◌≡◌, refl, sym, ◌∙◌, ap, ◌≢◌, ◌⊎◌, inl, inr, length,
  get_or, set, arith, Bool, true, false, ◌&&◌, List, [], ◌∷◌, ◌==◌, if◌then◌else◌, Bool-cases,
  bit_and, bit_or, length-set, get_or-set_self, get_or-set_ne,
}
use cotton.Prelude.Bits.{
  bit, bit-lt-two, bit-bit_or, bit-two_pow, bit_and_fifteen, bit_and-two_pow_clear,
  bit_and-two_pow_set, bit_or-lt, two_pow_mono, le-bit_or, lt-bit_or-two_pow,
}
use cotton.UsbHost.Topology.{Topology, Loop, drop_device, visit}
use cotton.UsbHost.Topology.Shape.{at}

-- Device `i` is attached downstream of a port: on it, or on a hub that is downstream of it.
pub data Downstream (t : Topology) (hub port : ℕ) : ℕ → Type 0 where
  direct :
      (i : ℕ)
      → i < 32
      → at t i ≢ 0
      → at t i % 16 ≡ hub
      → at t i / 16 ≡ port
      → Downstream t hub port i
  through :
      (i h : ℕ)
      → i < 32
      → at t i ≢ 0
      → at t i % 16 ≡ h
      → Downstream t hub port h
      → Downstream t hub port i

-- What the loop keeps: the bits are of devices downstream, and exactly their entries are cleared.
pub record Inv (t : Topology) (hub port : ℕ) (s : Loop) : Type 0 where
  pub fits : s.bitset < 2 ^ 32
  pub size : length s.parent ≡ 32
  pub sound : (i : ℕ) → bit i s.bitset ≡ 1 → Downstream t hub port i
  pub kept : (i : ℕ) → i < 32 → get_or s.parent i 0 ≡ (if bit i s.bitset == 1 then 0 else at t i)

module _ (t : Topology) (hub port : ℕ) where
  drop_device-Inv :
      (i : ℕ) (s : Loop)
      → i < 32
      → Inv t hub port s
      → Downstream t hub port i
      → Inv t hub port (drop_device s i)
  drop_device-Inv i s l v d = record {
    fits = bit_or-lt 32 s.bitset (2 ^ i) v.fits (two_pow_mono i 32 l);
    size = length-set s.parent i 0 ∙ v.size;
    sound = λ j b. elim (Bool-cases (j == i)) [
      | inl q ↦ let r : j ≡ i = ground arith in rw r d
      | inr q ↦
          v.sound j
            (ground (arith, bit-bit_or j s.bitset (2 ^ i), bit-two_pow j i, bit-lt-two j s.bitset))
    ];
    kept = λ j m. elim (Bool-cases (j == i)) [
      | inl q ↦
          let r : j ≡ i = ground arith in
          rw r (
            get_or-set_self s.parent i 0 0 (omega (arith, v.size))
            ∙ ground (arith, bit-bit_or i s.bitset (2 ^ i), bit-two_pow i i, bit-lt-two i s.bitset))
      | inr q ↦
          get_or-set_ne s.parent i j 0 0 (ground arith)
          ∙ ground (
            arith,
            v.kept j m,
            bit-bit_or j s.bitset (2 ^ i),
            bit-two_pow j i,
            bit-lt-two j s.bitset,
          )
    ];
  }

-- The devices that are still in the table.
pub remaining : List ℕ → ℕ
remaining [] = 0
remaining (e ∷ es) = (if e == 0 then 0 else 1) + remaining es

pub remaining-le-length : (es : List ℕ) → remaining es ≤ length es
unfolding remaining
remaining-le-length [] = omega arith
remaining-le-length (e ∷ es) = ground (arith, remaining-le-length es)

remaining-set : (es : List ℕ) (i : ℕ) → remaining (set es i 0) ≤ remaining es
unfolding remaining
remaining-set [] i = omega arith
remaining-set (e ∷ es) zero = ground arith
remaining-set (e ∷ es) (suc i) = ground (arith, remaining-set es i)

remaining-set_lt : (es : List ℕ) (i : ℕ) → get_or es i 0 ≢ 0 → remaining (set es i 0) < remaining es
unfolding remaining
remaining-set_lt [] i h = absurd (h refl)
remaining-set_lt (e ∷ es) zero h = ground arith
remaining-set_lt (e ∷ es) (suc i) h = ground (arith, remaining-set_lt es i h)

-- Nothing is left to do at device `i`.
abbrev pub Quiet : ℕ → ℕ → Loop → ℕ → Type 0
Quiet hub port s i =
    (get_or s.parent i 0 ≡ 0)
    ⊎ ¬ ((get_or s.parent i 0 % 16 ≡ hub) × (get_or s.parent i 0 / 16 ≡ port))
      × (bit (get_or s.parent i 0 % 16) s.bitset ≡ 0)

-- A pass over the devices from `lo` to `hi` either finds nothing to do or makes progress.
pub data Pass (hub port lo hi : ℕ) (s : Loop) : Loop → Type 0 where
  quiet : ((i : ℕ) → lo ≤ i → i < hi → Quiet hub port s i) → Pass hub port lo hi s s
  grew :
      (s' : Loop)
      → s.bitset < s'.bitset
      → remaining s'.parent < remaining s.parent
      → Pass hub port lo hi s s'

module _ (t : Topology) (hub port : ℕ) where
  abbrev OnPort : ℕ → Type 0
  OnPort e = (e % 16 ≡ hub) × (e / 16 ≡ port)

  -- A device that is still in the table has its entry, and its bit is clear.
  entry_kept :
      (i : ℕ) (s : Loop)
      → i < 32
      → Inv t hub port s
      → get_or s.parent i 0 ≢ 0
      → (get_or s.parent i 0 ≡ at t i) × (bit i s.bitset ≡ 0)
  entry_kept i s l v n = ground (arith, v.kept i l, bit-lt-two i s.bitset)

  -- `bitset & 1 << k` tests bit `k`.
  test_bit :
      (k : ℕ) (s : Loop)
      → s.bitset < 2 ^ 32
      → (bit_and s.bitset (2 ^ k) == 0) ≡ (bit k s.bitset == 0)
  test_bit k s l = elim (Bool-cases (bit k s.bitset == 0)) [
    | inl q ↦ rw (q, bit_and-two_pow_clear 32 k s.bitset l (ground arith))
    | inr q ↦ ground (arith, bit_and-two_pow_set k s.bitset, bit-lt-two k s.bitset)
  ]

  at_only : (P : ℕ → Type 0) (i : ℕ) → P i → (j : ℕ) → i ≤ j → j < suc i → P j
  at_only P i p j a b = let r : j ≡ i = omega arith in rw r p

  drop_device-Pass :
      (i : ℕ) (s : Loop)
      → i < 32
      → Inv t hub port s
      → get_or s.parent i 0 ≢ 0
      → Pass hub port i (suc i) s (drop_device s i)
  drop_device-Pass i s l v n =
      grew _ (lt-bit_or-two_pow s.bitset i (entry_kept i s l v n).1) (remaining-set_lt s.parent i n)

  drop_twice-Pass :
      (i : ℕ) (s : Loop)
      → i < 32
      → Inv t hub port s
      → get_or s.parent i 0 ≢ 0
      → Pass hub port i (suc i) s (drop_device (drop_device s i) i)
  drop_twice-Pass i s l v n =
      grew _
        (omega (
          arith,
          lt-bit_or-two_pow s.bitset i (entry_kept i s l v n).1,
          le-bit_or (bit_or s.bitset (2 ^ i)) (2 ^ i),
        ))
        (omega (arith, remaining-set_lt s.parent i n, remaining-set (set s.parent i 0) i))

  -- The device of an entry on the port is downstream, and so is that of a hub with its bit set.
  entry-direct :
      (i : ℕ) (s : Loop)
      → i < 32
      → Inv t hub port s
      → get_or s.parent i 0 ≢ 0
      → OnPort (get_or s.parent i 0)
      → Downstream t hub port i
  entry-direct i s l v n (a, b) =
      let e = (entry_kept i s l v n).0 in
      direct i l (ground arith) (ap (λ (x : ℕ). x % 16) (sym e) ∙ a)
        (ap (λ (x : ℕ). x / 16) (sym e) ∙ b)

  entry-through :
      (i : ℕ) (s : Loop)
      → i < 32
      → Inv t hub port s
      → get_or s.parent i 0 ≢ 0
      → bit (get_or s.parent i 0 % 16) s.bitset ≡ 1
      → Downstream t hub port i
  entry-through i s l v n b =
      let e = (entry_kept i s l v n).0 in
      through i (get_or s.parent i 0 % 16) l (ground arith) (ap (λ (x : ℕ). x % 16) (sym e))
        (v.sound _ b)

  abbrev pub Visited : ℕ → Loop → Loop → Type 0
  Visited i s s' = Inv t hub port s' × Pass hub port i (suc i) s s'

  visit-OnPort :
      (i : ℕ) (s : Loop)
      → i < 32
      → Inv t hub port s
      → get_or s.parent i 0 ≢ 0
      → OnPort (get_or s.parent i 0)
      → (b : Bool) → Visited i s (if b then drop_device s i else drop_device (drop_device s i) i)
  visit-OnPort i s l v n on true =
      (drop_device-Inv t hub port i s l v (entry-direct i s l v n on), drop_device-Pass i s l v n)
  visit-OnPort i s l v n on false =
      let d = entry-direct i s l v n on in
      (
        drop_device-Inv t hub port i (drop_device s i) l (drop_device-Inv t hub port i s l v d) d,
        drop_twice-Pass i s l v n,
      )

  pub visit-Visited :
      (i : ℕ) (s : Loop) → i < 32 → Inv t hub port s → Visited i s (visit hub port i s)
  unfolding visit
  visit-Visited i s l v = elim (Bool-cases (get_or s.parent i 0 == 0)) [
    | inl z ↦ rw z (v, quiet (at_only (Quiet hub port s) i (inl (ground arith))))
    | inr n ↦
        elim (Bool-cases (get_or s.parent i 0 % 16 == hub && get_or s.parent i 0 / 16 == port)) [
          | inl on ↦
              rw (n, bit_and_fifteen, on) (visit-OnPort i s l v (ground arith) (ground arith) _)
          | inr off ↦ elim (Bool-cases (bit (get_or s.parent i 0 % 16) s.bitset == 0)) [
            | inl c ↦
                rw (n, bit_and_fifteen, off, test_bit (get_or s.parent i 0 % 16) s v.fits, c)
                  (v, quiet (at_only (Quiet hub port s) i (inr (ground arith, ground arith))))
            | inr c ↦
                rw (n, bit_and_fifteen, off, test_bit (get_or s.parent i 0 % 16) s v.fits, c)
                  (
                    drop_device-Inv t hub port i s l v (
                        entry-through i s l v (ground arith)
                          (ground (arith, bit-lt-two (get_or s.parent i 0 % 16) s.bitset))),
                    drop_device-Pass i s l v (ground arith),
                  )
          ]
        ]
  ]
