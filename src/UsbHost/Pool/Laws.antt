-- ===== src/UsbHost/Pool/Laws.antt =====
-- cotton-usb-host/src/async_pool.rs: what a pool hands out and takes back.
use cotton.Prelude.{
  ℕ, ◌≤◌, ◌<◌, ◌≡◌, refl, inl, inr, Bool, true, false, not, ◌&&◌, ◌||◌, Option, none, some, ◌==◌,
  leb, Bool-cases, arith,
}
use cotton.Prelude.Outcome.{Outcome, returns, ◌>>=◌}
use cotton.UsbHost.BitSet.{BitSet}
use cotton.UsbHost.BitSet.Laws as BitSetLaws
use cotton.UsbHost.BitSet.Laws.{view, Shows, SetsAny, full, added}
use cotton.UsbHost.Pool.{Pool, alloc_internal, dealloc_internal, poll, take_bit}

-- Resource `n` is out.
abbrev pub is_taken : {W : Type 0} → Pool W → ℕ → Bool
is_taken p n = view p.allocated n

-- Only numbers below the total, of which there are 32 at most, are out.
pub record IsValid {W : Type 0} (p : Pool W) : Type 0 where
  pub bits : BitSetLaws.IsValid p.allocated
  pub total_fits : p.total ≤ 32
  pub within : (n : ℕ) → n < 32 → is_taken p n ≡ true → n < p.total

module _ {W : Type 0} where
  -- How an allocation ends.
  pub data Allocates (p : Pool W) : Outcome (Option ℕ × Pool W) → Type 0 where
    busy : ((n : ℕ) → n < p.total → is_taken p n ≡ true) → Allocates p (returns (none, p))
    taken :
        (n : ℕ) (p' : Pool W)
        → n < p.total
        → is_taken p n ≡ false
        → IsValid p'
        → (p'.total ≡ p.total)
        → (p'.waker ≡ p.waker)
        → ((m : ℕ) → m < 32 → is_taken p' m ≡ (m == n || is_taken p m))
        → Allocates p (returns (some n, p'))

  alloc_step :
      (p : Pool W) (r : Outcome (Option ℕ × BitSet))
      → IsValid p
      → SetsAny p.allocated r
      → Allocates p (r >>= λ x. returns (take_bit p x))
  alloc_step p _ v (full all) = busy (λ n h. all n (omega (arith, v.total_fits)))
  alloc_step p _ v (added n s l free below shows) = elim (Bool-cases (leb p.total n)) [
    | inl q ↦ rw q (busy (λ m h. below m (ground arith)))
    | inr q ↦ rw q (
        taken n (record p { allocated = s }) (ground arith) free
          (record {
            bits = shows.valid;
            total_fits = v.total_fits;
            within = λ m h e. ground (arith, shows.members m h, v.within m h);
          })
          refl refl (λ m h. shows.members m h))
  ]

  -- On a well-formed pool an allocation gives out a free resource below the total, and takes that
  -- one only, or says none when all are out; it never panics, and it keeps the pool well-formed.
  pub alloc_internal-Allocates : (p : Pool W) → IsValid p → Allocates p (alloc_internal p)
  unfolding alloc_internal
  alloc_internal-Allocates p v = alloc_step p _ v (BitSetLaws.set_any-SetsAny p.allocated v.bits)

  -- Dropping a resource frees it and nothing else, and wakes the task whose poll came last.
  pub dealloc_internal_lem :
      (p : Pool W) (n : ℕ)
      → IsValid p
      → n < 32
      → is_taken p n ≡ true
      → (p' : Pool W) × (dealloc_internal p n ≡ returns (p.waker, p'))
        × IsValid p'
        × (p'.total ≡ p.total)
        × (p'.waker ≡ none)
        × ((m : ℕ) → m < 32 → is_taken p' m ≡ (not (m == n) && is_taken p m))
  unfolding dealloc_internal
  dealloc_internal_lem p n v h taken' =
      let (s, runs, shows) = BitSetLaws.clear_in_range p.allocated n v.bits h in
      (
        record p { allocated = s; waker = none },
        rw (BitSetLaws.contains_in_range p.allocated n v.bits h, taken', runs),
        record {
          bits = shows.valid;
          total_fits = v.total_fits;
          within = λ m l e. ground (arith, shows.members m l, v.within m l);
        },
        refl,
        refl,
        λ m l. shows.members m l,
      )

  -- A poll that finds no resource only leaves its waker, in place of any that was there.
  pub poll_busy :
      (p : Pool W) (w : W)
      → IsValid p
      → ((n : ℕ) → n < p.total → is_taken p n ≡ true)
      → poll p w ≡ returns (none, record p { waker = some w })
  unfolding poll
  poll_busy p w v all = go _ (
      alloc_internal-Allocates q
        (record { bits = v.bits; total_fits = v.total_fits; within = v.within }))
    where
      q : Pool W
      q = record p { waker = some w }

      go : (r : Outcome (Option ℕ × Pool W)) → Allocates q r → r ≡ returns (none, q)
      go _ (busy _) = refl
      go _ (taken n _ l free _ _ _ _) = ground (arith, all n l)

  -- Two tasks in turn poll an allocation from a well-formed pool that is all taken; then a resource
  -- of it is dropped. The drop wakes the second task, the resource is free, and no waker is left to
  -- wake the first.
  pub poll-poll-dealloc_internal :
      (p : Pool W) (first second : W) (n : ℕ)
      → IsValid p
      → ((m : ℕ) → m < p.total → is_taken p m ≡ true)
      → n < p.total
      → (p' : Pool W) × ((poll p first >>= λ r. poll r.1 second >>= λ s. dealloc_internal s.1 n)
          ≡ returns (some second, p'))
        × (p'.waker ≡ none)
        × (is_taken p' n ≡ false)
  poll-poll-dealloc_internal p first second n v all l =
      let v₁ : IsValid (record p { waker = some first }) = record {
        bits = v.bits;
        total_fits = v.total_fits;
        within = v.within;
      } in
      let v₂ : IsValid (record p { waker = some second }) = record {
        bits = v.bits;
        total_fits = v.total_fits;
        within = v.within;
      } in
      let h : n < 32 = omega (arith, v.total_fits) in
      let (p', runs, _, _, no_waker, bits) =
        dealloc_internal_lem (record p { waker = some second }) n v₂ h (all n l) in
      (
        p',
        rw (poll_busy p first v all)
            (rw (poll_busy (record p { waker = some first }) second v₁ all) runs),
        no_waker,
        ground (arith, bits n h),
      )
