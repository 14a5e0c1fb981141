-- ===== src/UsbHost/Pool/Ownership.antt =====
-- cotton-usb-host/src/async_pool.rs: tasks that poll, hold and drop resources in any order.
use cotton.Prelude.{
  ℕ, ◌+◌, ◌-◌, ◌<◌, ◌≡◌, subst, ◌⊎◌, inl, inr, true, ◌&&◌, Option, none, some, List, [], ◌∷◌, ◌==◌,
  ltb, leb, if◌then◌else◌, Bool-cases, arith,
}
use cotton.Prelude.Bits.{bit-zero}
use cotton.Prelude.Outcome.{Outcome, returns, panics}
use cotton.UsbHost.BitSet
use cotton.UsbHost.Pool.{Pool, new, alloc_internal, dealloc_internal, poll, try_alloc}
use cotton.UsbHost.Pool.Laws.{
  is_taken, IsValid, Allocates, busy, taken, alloc_internal-Allocates, dealloc_internal_lem,
}

-- How often a resource is held.
abbrev pub count : ℕ → List ℕ → ℕ
count n [] = 0
count n (x ∷ xs) = (if x == n then 1 else 0) + count n xs

-- One handle is dropped.
abbrev pub erase : ℕ → List ℕ → List ℕ
erase n [] = []
erase n (x ∷ xs) = if x == n then xs else x ∷ erase n xs

count-erase :
    (m n : ℕ) (xs : List ℕ) → count m (erase n xs) ≡ (if m == n then count m xs - 1 else count m xs)
count-erase m n [] = ground arith
count-erase m n (x ∷ xs) = ground (arith, count-erase m n xs)

module _ (W : Type 0) where
  -- The pool, and the `Pooled` handles that are alive.
  pub record System : Type 0 where
    pub pool : Pool W
    pub held : List ℕ

  pub data Step (s : System) : System → Type 0 where
    ready :
        (w : W) (n : ℕ) (p : Pool W)
        → poll s.pool w ≡ returns (some n, p)
        → Step s (record { pool = p; held = n ∷ s.held })
    pending :
        (w : W) (p : Pool W) → poll s.pool w ≡ returns (none, p) → Step s (record s { pool = p })
    try_some :
        (n : ℕ) (p : Pool W)
        → try_alloc s.pool ≡ returns (some n, p)
        → Step s (record { pool = p; held = n ∷ s.held })
    dropped :
        (n : ℕ) (w : Option W) (p : Pool W)
        → 0 < count n s.held
        → dealloc_internal s.pool n ≡ returns (w, p)
        → Step s (record { pool = p; held = erase n s.held })

  pub data Reach (s : System) : System → Type 0 where
    here : Reach s s
    next : {t u : System} → Reach s t → Step t u → Reach s u

  -- The bits are exactly the handles alive: each handle has its resource for itself.
  pub record Exclusive (s : System) : Type 0 where
    pub valid : IsValid s.pool
    pub once : (n : ℕ) → count n s.held ≡ (if ltb n 32 && is_taken s.pool n then 1 else 0)

  -- What an allocation leaves for the handles.
  abbrev After : List ℕ → Outcome (Option ℕ × Pool W) → Type 0
  After held panics = ⊥
  After held (returns (none, p)) = Exclusive (record { pool = p; held = held })
  After held (returns (some n, p)) = Exclusive (record { pool = p; held = n ∷ held })

  Allocates-After :
      (p : Pool W) (held : List ℕ) (r : Outcome (Option ℕ × Pool W))
      → Exclusive (record { pool = p; held = held })
      → Allocates p r
      → After held r
  Allocates-After p held _ x (busy _) = x
  Allocates-After p held _ x (taken n p' l free v _ _ bits) = record {
    valid = v;
    once = λ m. elim (Bool-cases (ltb m 32)) [
      | inl q ↦ ground (arith, x.once m, bits m (ground arith), v.within m)
      | inr q ↦ ground (arith, x.once m, v.total_fits, x.valid.total_fits)
    ];
  }

  alloc_internal-After :
      (p : Pool W) (held : List ℕ)
      → Exclusive (record { pool = p; held = held })
      → After held (alloc_internal p)
  alloc_internal-After p held x = Allocates-After p held _ x (alloc_internal-Allocates p x.valid)

  -- Setting the waker changes no bit.
  Exclusive-waker :
      (p : Pool W) (held : List ℕ) (w : Option W)
      → Exclusive (record { pool = p; held = held })
      → Exclusive (record { pool = record p { waker = w }; held = held })
  Exclusive-waker p held w x = record {
    valid = record {
      bits = x.valid.bits;
      total_fits = x.valid.total_fits;
      within = x.valid.within;
    };
    once = x.once;
  }

  poll-After :
      (p : Pool W) (held : List ℕ) (w : W)
      → Exclusive (record { pool = p; held = held })
      → After held (poll p w)
  unfolding poll
  poll-After p held w x =
      alloc_internal-After (record p { waker = some w }) held (Exclusive-waker p held (some w) x)

  try_alloc-After :
      (p : Pool W) (held : List ℕ)
      → Exclusive (record { pool = p; held = held })
      → After held (try_alloc p)
  unfolding try_alloc
  try_alloc-After p held x = alloc_internal-After p held x

  -- A handle that is alive can be dropped: the debug assertion holds.
  held-taken :
      (s : System) (n : ℕ)
      → Exclusive s
      → 0 < count n s.held
      → (n < 32) × (is_taken s.pool n ≡ true)
  held-taken s n x h = ground (arith, x.once n)

  abbrev AfterDrop : List ℕ → Outcome (Option W × Pool W) → Type 0
  AfterDrop held panics = ⊥
  AfterDrop held (returns (_, p)) = Exclusive (record { pool = p; held = held })

  pub dealloc_internal-After :
      (s : System) (n : ℕ)
      → Exclusive s
      → 0 < count n s.held
      → AfterDrop (erase n s.held) (dealloc_internal s.pool n)
  dealloc_internal-After s n x h =
      let (l, t) = held-taken s n x h in
      let (p', runs, v, _, _, bits) = dealloc_internal_lem s.pool n x.valid l t in
      rw runs (record {
        valid = v;
        once = λ m. elim (Bool-cases (ltb m 32)) [
          | inl q ↦ ground (arith, count-erase m n s.held, x.once m, bits m (ground arith))
          | inr q ↦ ground (arith, count-erase m n s.held, x.once m)
        ];
      })

  Step-Exclusive : {s u : System} → Exclusive s → Step s u → Exclusive u
  Step-Exclusive {s} x (ready w n p e) = subst (After s.held) e (poll-After s.pool s.held w x)
  Step-Exclusive {s} x (pending w p e) = subst (After s.held) e (poll-After s.pool s.held w x)
  Step-Exclusive {s} x (try_some n p e) = subst (After s.held) e (try_alloc-After s.pool s.held x)
  Step-Exclusive {s} x (dropped n w p h e) =
      subst (AfterDrop (erase n s.held)) e (dealloc_internal-After s n x h)

  Reach-Exclusive : {s u : System} → Exclusive s → Reach s u → Exclusive u
  Reach-Exclusive x here = x
  Reach-Exclusive x (next r st) = Step-Exclusive (Reach-Exclusive x r) st

  abbrev Fresh : Outcome (Pool W) → Type 0
  Fresh panics = Unit
  Fresh (returns p) = Exclusive (record { pool = p; held = [] })

  new-Fresh : (total : ℕ) → Fresh (new total)
  unfolding new BitSet.new
  new-Fresh total = elim (Bool-cases (leb total 32)) [
    | inl q ↦ rw q (record {
      valid = record {
        bits = omega arith;
        total_fits = ground arith;
        within = λ n l h. ground (arith, bit-zero n);
      };
      once = λ n. ground (arith, bit-zero n);
    })
    | inr q ↦ rw q tt
  ]

  -- In every state that tasks can reach from a new pool, by polls of an allocation, attempts to
  -- allocate and drops of what they hold, each number is either held by nobody, or held exactly once
  -- and below the pool's total.
  pub held_once :
      (total : ℕ) (p : Pool W) (s : System) (n : ℕ)
      → new total ≡ returns p
      → Reach (record { pool = p; held = [] }) s
      → (count n s.held ≡ 0) ⊎ ((count n s.held ≡ 1) × (n < s.pool.total))
  held_once total p s n e r =
      let x = Reach-Exclusive (subst Fresh e (new-Fresh total)) r in
      ground (arith, x.once n, x.valid.within n)
