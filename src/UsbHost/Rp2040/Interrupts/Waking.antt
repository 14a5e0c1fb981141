-- ===== src/UsbHost/Rp2040/Interrupts/Waking.antt =====
-- cotton-usb-host/src/host/rp2040.rs: which tasks the interrupt handler wakes.
use cotton.Prelude.{
  ℕ, zero, suc, ◌+◌, ◌*◌, ◌^◌, ◌≤◌, ◌<◌, ◌≡◌, ◌≢◌, ◌↔◌, refl, ap, sym, subst, Bool, ◌⊎◌, true,
  false, Bool-cases, inl, inr, List, [], ◌∷◌, ◌++◌, bit_and, ◌==◌, if◌then◌else◌, arith,
}
use mathlib.Core.List.{Memᴰ}
use cotton.UsbHost.Rp2040.Pac.{Pac, ints, buff_status, Field, Waker, device_waker, pipe_waker}
use cotton.UsbHost.Rp2040.Transfer.{Usb}
use cotton.UsbHost.Rp2040.Interrupts.{woken_pipes, when_set, on_irq}

module _ {A : Type 0} where
  mem_left : {x : A} {xs : List A} (ys : List A) → Memᴰ x xs → Memᴰ x (xs ++ ys)
  mem_left ys (Memᴰ.head e) = Memᴰ.head e
  mem_left ys (Memᴰ.tail m) = Memᴰ.tail (mem_left ys m)

  mem_right : {x : A} (xs : List A) {ys : List A} → Memᴰ x ys → Memᴰ x (xs ++ ys)
  mem_right [] m = m
  mem_right (y ∷ xs) m = Memᴰ.tail (mem_right xs m)

  mem_split : {x : A} (xs : List A) {ys : List A} → Memᴰ x (xs ++ ys) → Memᴰ x xs ⊎ Memᴰ x ys
  mem_split [] m = inr m
  mem_split (y ∷ xs) (Memᴰ.head e) = inl (Memᴰ.head e)
  mem_split (y ∷ xs) (Memᴰ.tail m) = elim (mem_split xs m) [
    | inl n ↦ inl (Memᴰ.tail n)
    | inr n ↦ inr n
  ]

-- The number of a pipe's waker, and 0 for the waker of the root port.
abbrev pipe_of : Waker → ℕ
pipe_of device_waker = 0
pipe_of (pipe_waker i) = i

pipe_waker-injective : {i j : ℕ} → pipe_waker i ≡ pipe_waker j → i ≡ j
pipe_waker-injective e = ap pipe_of e

-- The interrupt that the registers `now` (the pending interrupts) and `bs` (the buffers that are
-- done) describe is about the pipe `i`: one of the two buffers of `i` is done, and `i` is one of the
-- pipes that the handler looks at; or `i` is the control pipe, and a transfer has completed, stalled,
-- timed out or failed.
pub data IsAbout (has_buffers : Bool) (now bs i : ℕ) : Type 0 where
  of_buffer :
      i < 15 → has_buffers ≡ true → bit_and bs (3 * 2 ^ (i * 2)) ≢ 0 → IsAbout has_buffers now bs i
  of_control : i ≡ 0 → bit_and now 1112 ≢ 0 → IsAbout has_buffers now bs i

woken_pipes-Mem :
    (n i k bs : ℕ)
    → i ≤ k
    → k < n + i
    → bit_and bs (3 * 2 ^ (k * 2)) ≢ 0
    → Memᴰ (pipe_waker k) (woken_pipes n i bs)
unfolding woken_pipes
woken_pipes-Mem zero i k bs l m h = absurd (omega arith)
woken_pipes-Mem (suc n) i k bs l m h = elim (here_or_later i k l) [
  | inl e ↦
      let set : (bit_and bs (3 * 2 ^ (k * 2)) == 0) ≡ false = ground (arith, h) in
      subst (λ j. Memᴰ (pipe_waker k) (woken_pipes (suc n) j bs)) (sym e) (rw set (Memᴰ.head refl))
  | inr later ↦
      let rest = woken_pipes-Mem n (suc i) k bs later (omega arith) h in
      elim (Bool-cases (bit_and bs (3 * 2 ^ (i * 2)) == 0)) [
        | inl q ↦ rw q rest
        | inr q ↦ rw q (Memᴰ.tail rest)
      ]
]
  where
    here_or_later : (i k : ℕ) → i ≤ k → (i ≡ k) ⊎ (suc i ≤ k)
    here_or_later i k l = ground arith

woken_pipes_sound :
    (n i k bs : ℕ)
    → Memᴰ (pipe_waker k) (woken_pipes n i bs)
    → (k < n + i) × (bit_and bs (3 * 2 ^ (k * 2)) ≢ 0)
unfolding woken_pipes
woken_pipes_sound zero i k bs m = elim m [ ]
woken_pipes_sound (suc n) i k bs m = elim (Bool-cases (bit_and bs (3 * 2 ^ (i * 2)) == 0)) [
  | inl q ↦ let r = woken_pipes_sound n (suc i) k bs (rw q at m) in (omega (arith, r.0), r.1)
  | inr q ↦ here_or_later (λ l. woken_pipes_sound n (suc i) k bs l) (rw q at m) q
]
  where
    here_or_later :
        (Memᴰ (pipe_waker k) (woken_pipes n (suc i) bs)
          → (k < n + suc i) × (bit_and bs (3 * 2 ^ (k * 2)) ≢ 0))
        → Memᴰ (pipe_waker k) (pipe_waker i ∷ woken_pipes n (suc i) bs)
        → (bit_and bs (3 * 2 ^ (i * 2)) == 0) ≡ false
        → (k < suc n + i) × (bit_and bs (3 * 2 ^ (k * 2)) ≢ 0)
    here_or_later sound (Memᴰ.head e) q =
        let same : k ≡ i = pipe_waker-injective e in
        (
          omega (arith, same),
          subst (λ j. bit_and bs (3 * 2 ^ (j * 2)) ≢ 0) (sym same) (λ z. ground (arith, z)),
        )
    here_or_later sound (Memᴰ.tail later) q = let r = sound later in (omega (arith, r.0), r.1)

when_set_sound :
    (n : ℕ) (i : ℕ) (w : Waker)
    → Memᴰ (pipe_waker i) (when_set n (w ∷ []))
    → (n ≢ 0) × (pipe_waker i ≡ w)
when_set_sound zero i w m = elim m [ ]
when_set_sound (suc n) i w (Memᴰ.head e) = ((λ z. omega (arith, z)), e)
when_set_sound (suc n) i w (Memᴰ.tail m) = elim m [ ]

when_set-Mem : (n : ℕ) (w : Waker) → n ≢ 0 → Memᴰ w (when_set n (w ∷ []))
when_set-Mem zero w h = absurd (h refl)
when_set-Mem (suc n) w h = Memᴰ.head refl

pub on_irq-Wakes :
    {H W : Type 0} (pac : Pac H W) (s : Usb H W) (i : ℕ)
    → i < 15
    → pac.flag Field.buff_status_field (pac.read ints s.regs) ≡ true
    → bit_and (pac.read buff_status s.regs) (3 * 2 ^ (i * 2)) ≢ 0
    → Memᴰ (pipe_waker i) (on_irq pac s).0
unfolding on_irq
on_irq-Wakes pac s i l f h =
    rw f (mem_left _ (mem_left _ (woken_pipes-Mem 15 0 i _ (omega arith) (omega arith) h)))

-- The task that waits on a pipe is woken if and only if the interrupt is about that pipe: one of its
-- buffers is done, it is one of the pipes 0 to 14, and the buffer interrupt is pending; or it is the
-- control pipe and one of the interrupts 0x458 is pending.
pub on_irq-mem :
    {H W : Type 0} (pac : Pac H W) (s : Usb H W) (i : ℕ)
    → Memᴰ (pipe_waker i) (on_irq pac s).0
      ↔ IsAbout
          (pac.flag Field.buff_status_field (pac.read ints s.regs))
          (pac.read ints s.regs)
          (pac.read buff_status s.regs)
          i
unfolding on_irq
on_irq-mem pac s i = (sound, complete)
  where
    now : ℕ
    now = pac.read ints s.regs

    bs : ℕ
    bs = pac.read buff_status s.regs

    pipes : List Waker
    pipes = if pac.flag Field.buff_status_field now then woken_pipes 15 0 bs else []

    device : List Waker
    device = when_set (bit_and now 1) (device_waker ∷ [])

    of_pipes : Memᴰ (pipe_waker i) pipes → IsAbout (pac.flag Field.buff_status_field now) now bs i
    of_pipes m = elim (Bool-cases (pac.flag Field.buff_status_field now)) [
      | inl q ↦
          let r = woken_pipes_sound 15 0 i bs (rw q at m) in of_buffer (omega (arith, r.0)) q r.1
      | inr q ↦ elim (rw q at m) [ ]
    ]

    of_device : Memᴰ (pipe_waker i) device → IsAbout (pac.flag Field.buff_status_field now) now bs i
    of_device m = let r = when_set_sound (bit_and now 1) i device_waker m in absurd (not_device r.1)
      where
        not_device : pipe_waker i ≢ device_waker
        not_device e = cc

    of_rest :
        Memᴰ (pipe_waker i) (when_set (bit_and now 1112) (pipe_waker 0 ∷ []))
        → IsAbout (pac.flag Field.buff_status_field now) now bs i
    of_rest m =
        let r = when_set_sound (bit_and now 1112) i (pipe_waker 0) m in
        of_control (pipe_waker-injective r.1) r.0

    sound :
        Memᴰ (pipe_waker i) (on_irq pac s).0
        → IsAbout (pac.flag Field.buff_status_field now) now bs i
    sound m = elim (mem_split (pipes ++ device) m) [
      | inl first ↦ elim (mem_split pipes first) [ inl p ↦ of_pipes p | inr d ↦ of_device d ]
      | inr c ↦ of_rest c
    ]

    complete :
        IsAbout (pac.flag Field.buff_status_field now) now bs i
        → Memᴰ (pipe_waker i) (on_irq pac s).0
    complete (of_buffer l f h) = on_irq-Wakes pac s i l f h
    complete (of_control z h) = mem_right (pipes ++ device) (
        subst (λ j. Memᴰ (pipe_waker j) (when_set (bit_and now 1112) (pipe_waker 0 ∷ []))) (sym z)
          (when_set-Mem (bit_and now 1112) (pipe_waker 0) h))
