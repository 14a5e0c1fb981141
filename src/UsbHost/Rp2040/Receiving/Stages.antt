-- ===== src/UsbHost/Rp2040/Receiving/Stages.antt =====
-- cotton-usb-host/src/host/rp2040.rs: the two buffers of an `In` transfer, from a preparation to the
-- packet's arrival to its retirement.
use cotton.Prelude.{
  ℕ, ◌+◌, ◌-◌, ◌≤◌, ◌<◌, ◌≡◌, refl, sym, ap, subst, ◌∙◌, append-nil, Bool, true, false, not, [],
  ◌++◌, length, arith,
}
use mathlib.Core.Bool.{true≢false}
use cotton.Prelude.Bytes.{Bytes}
use cotton.UsbHost.Rp2040.Dpram.{Slot, Dpram, slot, put_slot, put_control, next, base, load, store}
use cotton.UsbHost.Rp2040.Sending.{index, at}
use cotton.UsbHost.Rp2040.Receiving.{arrived, payload}

-- Where the next buffer is retired, filled by the chip and prepared, how many are in flight, and the
-- bytes that wait to be retired.
pub data Stages (d : Dpram) (retire : ℕ) (turn : Bool) (prep in_flight : ℕ) (xs : Bytes)
    : Type 0 where
  none :
      retire ≡ index turn
      → prep ≡ index turn
      → in_flight ≡ 0
      → xs ≡ []
      → (at d turn).available ≡ false
      → (at d (not turn)).available ≡ false
      → Stages d retire turn prep in_flight xs
  asked :
      retire ≡ index turn
      → prep ≡ index (not turn)
      → in_flight ≡ 1
      → xs ≡ []
      → (at d turn).available ≡ true
      → (at d turn).full ≡ false
      → (at d (not turn)).available ≡ false
      → Stages d retire turn prep in_flight xs
  both_asked :
      retire ≡ index turn
      → prep ≡ index turn
      → in_flight ≡ 2
      → xs ≡ []
      → (at d turn).available ≡ true
      → (at d turn).full ≡ false
      → (at d (not turn)).available ≡ true
      → (at d (not turn)).full ≡ false
      → Stages d retire turn prep in_flight xs
  come :
      retire ≡ index (not turn)
      → prep ≡ index turn
      → in_flight ≡ 1
      → xs ≡ payload d (not turn)
      → (at d turn).available ≡ false
      → (at d (not turn)).available ≡ false
      → (at d (not turn)).full ≡ true
      → Stages d retire turn prep in_flight xs
  come_and_asked :
      retire ≡ index (not turn)
      → prep ≡ index (not turn)
      → in_flight ≡ 2
      → xs ≡ payload d (not turn)
      → (at d turn).available ≡ true
      → (at d turn).full ≡ false
      → (at d (not turn)).available ≡ false
      → (at d (not turn)).full ≡ true
      → Stages d retire turn prep in_flight xs
  both_come :
      retire ≡ index turn
      → prep ≡ index turn
      → in_flight ≡ 2
      → xs ≡ payload d turn ++ payload d (not turn)
      → (at d turn).available ≡ false
      → (at d turn).full ≡ true
      → (at d (not turn)).available ≡ false
      → (at d (not turn)).full ≡ true
      → Stages d retire turn prep in_flight xs

-- How many buffers wait to be retired.
abbrev pub waiting :
    {d : Dpram} {retire : ℕ} {turn : Bool} {prep n : ℕ} {xs : Bytes}
    → Stages d retire turn prep n xs
    → ℕ
waiting (none _ _ _ _ _ _) = 0
waiting (asked _ _ _ _ _ _ _) = 0
waiting (both_asked _ _ _ _ _ _ _ _) = 0
waiting (come _ _ _ _ _ _ _) = 1
waiting (come_and_asked _ _ _ _ _ _ _ _) = 1
waiting (both_come _ _ _ _ _ _ _ _) = 2

module _ (d : Dpram) (retire : ℕ) (turn : Bool) (prep n : ℕ) (xs : Bytes) where
  pub waiting-le : (w : Stages d retire turn prep n xs) → waiting w ≤ 2
  waiting-le (none _ _ _ _ _ _) = omega arith
  waiting-le (asked _ _ _ _ _ _ _) = omega arith
  waiting-le (both_asked _ _ _ _ _ _ _ _) = omega arith
  waiting-le (come _ _ _ _ _ _ _) = omega arith
  waiting-le (come_and_asked _ _ _ _ _ _ _ _) = omega arith
  waiting-le (both_come _ _ _ _ _ _ _ _) = omega arith

  pub waiting_none : n ≡ 0 → (w : Stages d retire turn prep n xs) → waiting w ≡ 0
  waiting_none z (none _ _ _ _ _ _) = refl
  waiting_none z (asked _ _ _ _ _ _ _) = refl
  waiting_none z (both_asked _ _ _ _ _ _ _ _) = refl
  waiting_none z (come _ _ m _ _ _ _) = absurd (omega arith)
  waiting_none z (come_and_asked _ _ m _ _ _ _ _) = absurd (omega arith)
  waiting_none z (both_come _ _ m _ _ _ _ _) = absurd (omega arith)

  pub waiting_empty : (w : Stages d retire turn prep n xs) → waiting w ≡ 0 → xs ≡ []
  waiting_empty (none _ _ _ x _ _) z = x
  waiting_empty (asked _ _ _ x _ _ _) z = x
  waiting_empty (both_asked _ _ _ x _ _ _ _) z = x
  waiting_empty (come _ _ _ x _ _ _) z = absurd (omega arith)
  waiting_empty (come_and_asked _ _ _ x _ _ _ _) z = absurd (omega arith)
  waiting_empty (both_come _ _ _ x _ _ _ _) z = absurd (omega arith)

-- A packet comes in: its bytes wait behind those that came before.
pub arrived-Stages :
    (d : Dpram) (retire : ℕ) (turn : Bool) (prep n : ℕ) (xs ys : Bytes)
    → (at d turn).available ≡ true
    → load (base (index turn)) (length ys) (store (base (index turn)) ys d.memory) ≡ ys
    → load
        (base (index (not turn)))
        (at d (not turn)).length
        (store (base (index turn)) ys d.memory)
      ≡ payload d (not turn)
    → Stages d retire turn prep n xs
    → Stages (arrived turn ys d) retire (not turn) prep n (xs ++ ys)
arrived-Stages d r turn p n xs ys a k o (none _ _ _ _ f _) = absurd (true≢false (sym a ∙ f))
arrived-Stages d r false p n xs ys a k o (asked e f g x h i j) =
    come e f g (ap (λ l. l ++ ys) x ∙ sym k) j refl refl
arrived-Stages d r true p n xs ys a k o (asked e f g x h i j) =
    come e f g (ap (λ l. l ++ ys) x ∙ sym k) j refl refl
arrived-Stages d r false p n xs ys a k o (both_asked e f g x h i j l) =
    come_and_asked e f g (ap (λ l. l ++ ys) x ∙ sym k) j l refl refl
arrived-Stages d r true p n xs ys a k o (both_asked e f g x h i j l) =
    come_and_asked e f g (ap (λ l. l ++ ys) x ∙ sym k) j l refl refl
arrived-Stages d r turn p n xs ys a k o (come _ _ _ _ f _ _) = absurd (true≢false (sym a ∙ f))
arrived-Stages d r false p n xs ys a k o (come_and_asked e f g x h i j l) =
    both_come e f g
      (ap (λ l. l ++ ys) x
        ∙ ap (λ l. l ++ ys) (sym o)
        ∙ ap (λ l. payload (arrived false ys d) true ++ l) (sym k))
      j l refl refl
arrived-Stages d r true p n xs ys a k o (come_and_asked e f g x h i j l) =
    both_come e f g
      (ap (λ l. l ++ ys) x
        ∙ ap (λ l. l ++ ys) (sym o)
        ∙ ap (λ l. payload (arrived true ys d) false ++ l) (sym k))
      j l refl refl
arrived-Stages d r turn p n xs ys a k o (both_come _ _ _ _ f _ _ _) =
    absurd (true≢false (sym a ∙ f))

-- A buffer is made available, and one more is in flight.
pub prepared-Stages :
    (d : Dpram) (retire : ℕ) (turn b : Bool) (n : ℕ) (xs : Bytes) (s : Slot)
    → n < 2
    → s.available ≡ true
    → s.full ≡ false
    → Stages d retire turn (index b) n xs
    → Stages
        (put_control 0 (put_slot (index b) s (d.controls 0)) d)
        retire
        turn
        (next (index b))
        (n + 1)
        xs
prepared-Stages d r false false n xs s l a f (none e p g x h i) = asked e refl (omega arith) x a f i
prepared-Stages d r true true n xs s l a f (none e p g x h i) = asked e refl (omega arith) x a f i
prepared-Stages d r false true n xs s l a f (none e p g x h i) = absurd (omega arith)
prepared-Stages d r true false n xs s l a f (none e p g x h i) = absurd (omega arith)
prepared-Stages d r false true n xs s l a f (asked e p g x h i j) =
    both_asked e refl (omega arith) x h i a f
prepared-Stages d r true false n xs s l a f (asked e p g x h i j) =
    both_asked e refl (omega arith) x h i a f
prepared-Stages d r false false n xs s l a f (asked e p g x h i j) = absurd (omega arith)
prepared-Stages d r true true n xs s l a f (asked e p g x h i j) = absurd (omega arith)
prepared-Stages d r false false n xs s l a f (come e p g x h i j) =
    come_and_asked e refl (omega arith) x a f i j
prepared-Stages d r true true n xs s l a f (come e p g x h i j) =
    come_and_asked e refl (omega arith) x a f i j
prepared-Stages d r false true n xs s l a f (come e p g x h i j) = absurd (omega arith)
prepared-Stages d r true false n xs s l a f (come e p g x h i j) = absurd (omega arith)
prepared-Stages d r turn b n xs s l a f (both_asked e p g x h i j k) = absurd (omega arith)
prepared-Stages d r turn b n xs s l a f (come_and_asked e p g x h i j k) = absurd (omega arith)
prepared-Stages d r turn b n xs s l a f (both_come e p g x h i j k) = absurd (omega arith)

-- The oldest packet is retired: its bytes leave the queue.
pub data Retired (d : Dpram) (retire : ℕ) (turn : Bool) (prep n : ℕ) (xs : Bytes) (k : ℕ)
    : Type 0 where
  retired :
      (b : Bool) (rest : Bytes)
      → retire ≡ index b
      → xs ≡ payload d b ++ rest
      → (w : Stages d (next retire) turn prep (n - 1) rest) → waiting w < k
      → Retired d retire turn prep n xs k

next-index : (b : Bool) → next (index b) ≡ index (not b)
next-index false = refl
next-index true = refl

next-index-not : (b : Bool) → next (index (not b)) ≡ index b
next-index-not false = refl
next-index-not true = refl

full_at :
    (d : Dpram) (b : Bool) {retire : ℕ}
    → retire ≡ index b
    → (slot retire (d.controls 0)).full ≡ true
    → (at d b).full ≡ true
full_at d b e f = subst (λ k. (slot k (d.controls 0)).full ≡ true) e f

pub retired-Stages :
    (d : Dpram) (retire : ℕ) (turn : Bool) (prep n : ℕ) (xs : Bytes)
    → 0 < n
    → (slot retire (d.controls 0)).full ≡ true
    → (w : Stages d retire turn prep n xs) → Retired d retire turn prep n xs (waiting w)
retired-Stages d r turn p n xs l f (none e g m x h i) = absurd (omega arith)
retired-Stages d r turn p n xs l f (asked e g m x h i j) =
    absurd (true≢false (sym (full_at d turn e f) ∙ i))
retired-Stages d r turn p n xs l f (both_asked e g m x h i j k) =
    absurd (true≢false (sym (full_at d turn e f) ∙ i))
retired-Stages d r turn p n xs l f (come e g m x h i j) =
    retired (not turn) [] e (x ∙ sym (append-nil (payload d (not turn))))
      (none (ap next e ∙ next-index-not turn) g (omega arith) refl h i) (omega arith)
retired-Stages d r turn p n xs l f (come_and_asked e g m x h i j k) =
    retired (not turn) [] e (x ∙ sym (append-nil (payload d (not turn))))
      (asked (ap next e ∙ next-index-not turn) g (omega arith) refl h i j) (omega arith)
retired-Stages d r turn p n xs l f (both_come e g m x h i j k) =
    retired turn (payload d (not turn)) e x
      (come (ap next e ∙ next-index turn) g (omega arith) refl h j k) (omega arith)

-- Where the next buffer is not full, none waits.
pub waiting_not_full :
    (d : Dpram) (retire : ℕ) (turn : Bool) (prep n : ℕ) (xs : Bytes)
    → (slot retire (d.controls 0)).full ≡ false
    → (w : Stages d retire turn prep n xs) → waiting w ≡ 0
waiting_not_full d r turn p n xs f (none _ _ _ _ _ _) = refl
waiting_not_full d r turn p n xs f (asked _ _ _ _ _ _ _) = refl
waiting_not_full d r turn p n xs f (both_asked _ _ _ _ _ _ _ _) = refl
waiting_not_full d r turn p n xs f (come e _ _ _ _ _ j) =
    absurd (true≢false (sym j ∙ sym (ap (λ k. (slot k (d.controls 0)).full) e) ∙ f))
waiting_not_full d r turn p n xs f (come_and_asked e _ _ _ _ _ _ j) =
    absurd (true≢false (sym j ∙ sym (ap (λ k. (slot k (d.controls 0)).full) e) ∙ f))
waiting_not_full d r turn p n xs f (both_come e _ _ _ _ j _ _) =
    absurd (true≢false (sym j ∙ sym (ap (λ k. (slot k (d.controls 0)).full) e) ∙ f))

-- Where a buffer is prepared, and that it is one of the two.
pub prep_of-Stages :
    (d : Dpram) (retire : ℕ) (turn : Bool) (prep n : ℕ) (xs : Bytes)
    → Stages d retire turn prep n xs
    → (b : Bool) × (prep ≡ index b)
prep_of-Stages d r turn p n xs (none e g m x h i) = (turn, g)
prep_of-Stages d r turn p n xs (asked e g m x h i j) = (not turn, g)
prep_of-Stages d r turn p n xs (both_asked e g m x h i j k) = (turn, g)
prep_of-Stages d r turn p n xs (come e g m x h i j) = (turn, g)
prep_of-Stages d r turn p n xs (come_and_asked e g m x h i j k) = (not turn, g)
prep_of-Stages d r turn p n xs (both_come e g m x h i j k) = (turn, g)
