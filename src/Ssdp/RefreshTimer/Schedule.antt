-- ===== src/Ssdp/RefreshTimer/Schedule.antt =====
-- cotton-ssdp/src/refresh_timer.rs: how far apart the salvos are.
use cotton.Prelude.{
  ℕ, zero, suc, ◌+◌, ◌*◌, ◌/◌, ◌%◌, ◌^◌, ◌≤◌, ◌<◌, ◌≡◌, refl, ap, subst, ◌∙◌, inl, inr, true, false,
  ◌==◌, if◌then◌else◌, Bool-cases, arith,
}
use cotton.Prelude.Bits.{bit_and_byte}
use cotton.Ssdp.RefreshTimer.{Timebase, RefreshTimer, period_msec, next_refresh, update_refresh}

-- What the timer relies on: spans add up, and a positive span moves an instant forward.
pub record IsTimebase {I : Type 0} (base : Timebase I) : Type 0 where
  pub adds : (t : I) (a b : ℕ) → base.add_millis (base.add_millis t a) b ≡ base.add_millis t (a + b)
  pub forward : (t : I) (a : ℕ) → 0 < a → base.is_before t (base.add_millis t a) ≡ true

-- Byte `n` of the seed.
abbrev pub seed_byte : ℕ → ℕ → ℕ
seed_byte seed n = seed / 256 ^ n % 256

-- The span that a salvo in phase `p` sets.
abbrev pub span : ℕ → ℕ → ℕ
span seed p = (if p == 3 then 800_000 else 6_000) + seed_byte seed p * 10

-- Below phase 4 the shift picks byte `p` of the seed.
period_msec-span : (seed p : ℕ) → p < 4 → period_msec seed p ≡ span seed p
unfolding period_msec
period_msec-span seed zero h = omega (arith, bit_and_byte (seed / 2 ^ (0 * 8)))
period_msec-span seed (suc zero) h = omega (arith, bit_and_byte (seed / 256))
period_msec-span seed (suc (suc zero)) h = omega (arith, bit_and_byte (seed / 65536))
period_msec-span seed (suc (suc (suc zero))) h = omega (arith, bit_and_byte (seed / 16777216))
period_msec-span seed (suc (suc (suc (suc p)))) h = absurd (omega arith)

-- A whole cycle: three short spans and a long one, and 10 ms for each unit of each byte of the seed.
abbrev pub cycle_msec : ℕ → ℕ
cycle_msec seed =
    818_000 + 10 * (seed_byte seed 0 + seed_byte seed 1 + seed_byte seed 2 + seed_byte seed 3)

sum_of_spans :
    (seed p : ℕ)
    → p < 4
    → span seed p
        + span seed ((p + 1) % 4)
        + span seed (((p + 1) % 4 + 1) % 4)
        + span seed ((((p + 1) % 4 + 1) % 4 + 1) % 4)
      ≡ cycle_msec seed
sum_of_spans seed zero h = omega arith
sum_of_spans seed (suc zero) h = omega arith
sum_of_spans seed (suc (suc zero)) h = omega arith
sum_of_spans seed (suc (suc (suc zero))) h = omega arith
sum_of_spans seed (suc (suc (suc (suc p)))) h = absurd (omega arith)

module _ {I : Type 0} (base : Timebase I) where
  abbrev pub cycled : RefreshTimer I → RefreshTimer I
  cycled timer = record timer {
    next_salvo = base.add_millis timer.next_salvo (cycle_msec timer.random_seed);
  }

  -- The timer is due: the instant is not before the next salvo.
  abbrev pub IsDue : RefreshTimer I → I → Type 0
  IsDue timer now = base.is_before now (next_refresh base timer) ≡ false

  abbrev pub salvo : RefreshTimer I → RefreshTimer I
  salvo timer = record timer {
    next_salvo = base.add_millis timer.next_salvo (span timer.random_seed timer.phase);
    phase = (timer.phase + 1) % 4;
  }

  -- What one call does to a timer.
  pub data Refreshes (now : I) (timer : RefreshTimer I) : RefreshTimer I → Type 0 where
    waits : base.is_before now (next_refresh base timer) ≡ true → Refreshes now timer timer
    advances :
        (ms : ℕ) (timer' : RefreshTimer I)
        → IsDue timer now
        → 6_000 ≤ ms
        → ms ≤ 802_550
        → timer'.next_salvo ≡ base.add_millis timer.next_salvo ms
        → base.is_before timer.next_salvo timer'.next_salvo ≡ true
        → timer'.phase < 4
        → timer'.random_seed ≡ timer.random_seed
        → Refreshes now timer timer'

  update_due :
      (timer : RefreshTimer I) (now : I)
      → timer.phase < 4
      → IsDue timer now
      → update_refresh base now timer ≡ salvo timer
  unfolding update_refresh next_refresh
  update_due timer now v due = rw (due, period_msec-span timer.random_seed timer.phase v) refl

  module _ (laws : IsTimebase base) where
    -- Over instants to which spans add up, and which a positive span moves forward: a timer in one of
    -- its four phases that is not due is left alone; one that is due moves its next salvo strictly
    -- forward, by 6 to 802.55 seconds, and stays in one of its four phases.
    pub update_refresh-Refreshes :
        (timer : RefreshTimer I) (now : I)
        → timer.phase < 4
        → Refreshes now timer (update_refresh base now timer)
    unfolding update_refresh next_refresh
    update_refresh-Refreshes timer now v = elim (Bool-cases (base.is_before now timer.next_salvo)) [
      | inl early ↦ rw early (waits early)
      | inr due ↦ rw (update_due timer now v due) (
          advances (span timer.random_seed timer.phase) (salvo timer) due (ground arith)
            (ground arith) refl
            (laws.forward timer.next_salvo (span timer.random_seed timer.phase) (ground arith))
            (omega arith) refl)
    ]

    four_spans :
        (t : I) (a b c d : ℕ)
        → base.add_millis (base.add_millis (base.add_millis (base.add_millis t a) b) c) d
          ≡ base.add_millis t (a + b + c + d)
    four_spans t a b c d =
        rw (laws.adds t a b, laws.adds t (a + b) c, laws.adds t (a + b + c) d) refl

    four_salvos :
        (timer : RefreshTimer I)
        → timer.phase < 4
        → salvo (salvo (salvo (salvo timer))) ≡ cycled timer
    four_salvos timer v =
        ap
          (λ n. record timer {
            next_salvo = n;
            phase = ((((timer.phase + 1) % 4 + 1) % 4 + 1) % 4 + 1) % 4;
          })
          (four_spans timer.next_salvo _ _ _ _
            ∙ ap (base.add_millis timer.next_salvo) (sum_of_spans timer.random_seed timer.phase v))
        ∙ ap
            (λ p. record timer {
              next_salvo = base.add_millis timer.next_salvo (cycle_msec timer.random_seed);
              phase = p;
            })
            (omega arith)

    -- Over such instants, whichever of its four phases a timer is in, four calls that each find it due
    -- bring it back to that phase, with the next salvo later by 818 seconds and ten milliseconds for
    -- each unit of each byte of the seed.
    pub update_refresh_cycle :
        (timer : RefreshTimer I) (a b c d : I)
        → timer.phase < 4
        → IsDue timer a
        → IsDue (update_refresh base a timer) b
        → IsDue (update_refresh base b (update_refresh base a timer)) c
        → IsDue (update_refresh base c (update_refresh base b (update_refresh base a timer))) d
        → update_refresh base d
            (update_refresh base c (update_refresh base b (update_refresh base a timer)))
          ≡ cycled timer
    update_refresh_cycle timer a b c d v da db dc dd =
        let e1 = update_due timer a v da in
        let e2 =
          ap (update_refresh base b) e1
          ∙ update_due (salvo timer) b (omega arith) (subst (λ t. IsDue t b) e1 db) in
        let e3 =
          ap (update_refresh base c) e2
          ∙ update_due (salvo (salvo timer)) c (omega arith) (subst (λ t. IsDue t c) e2 dc) in
        let e4 =
          ap (update_refresh base d) e3
          ∙ update_due (salvo (salvo (salvo timer))) d (omega arith)
              (subst (λ t. IsDue t d) e3 dd) in
        e4 ∙ four_salvos timer v
