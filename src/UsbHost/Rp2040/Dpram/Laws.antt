-- ===== src/UsbHost/Rp2040/Dpram/Laws.antt =====
-- cotton-usb-host/src/host/rp2040.rs: copies to and from memory.
use cotton.Prelude.{
  ℕ, zero, suc, ◌+◌, ◌-◌, ◌≤◌, ◌<◌, ◌≡◌, refl, sym, ap, ◌∙◌, ◌++◌, length, take, drop,
  length-append, length-take, length-drop, take_exact, drop_exact, drop-drop, append_assoc,
  take-append-drop, [], ◌∷◌, arith,
}
use cotton.Prelude.Bytes.{Bytes}
use cotton.UsbHost.Rp2040.Dpram.{Slot, Dpram, slot, put_slot, put_control, base, load, store}

pub length-load : (at n : ℕ) (m : Bytes) → at + n ≤ length m → length (load at n m) ≡ n
length-load at n m h = omega (arith, length-take n (drop at m), length-drop at m)

pub length-store :
    (at : ℕ) (xs m : Bytes) → at + length xs ≤ length m → length (store at xs m) ≡ length m
length-store at xs m h =
    length-append (take at m ++ xs) (drop (at + length xs) m)
    ∙ (omega
        (arith, length-append (take at m) xs, length-take at m, length-drop (at + length xs) m))

-- What the chip guarantees of its memory: 4096 bytes, and ten bits for a packet's length.
pub record IsDpram (d : Dpram) : Type 0 where
  pub size : length d.memory ≡ 4096
  pub short_0 : (d.controls 0).slot_0.length < 1024
  pub short_1 : (d.controls 0).slot_1.length < 1024

pub base-lt : (which : ℕ) → base which < 449
base-lt zero = omega arith
base-lt (suc which) = omega arith

pub slot-short : (which : ℕ) (d : Dpram) → IsDpram d → (slot which (d.controls 0)).length < 1024
slot-short zero d h = h.short_0
slot-short (suc which) d h = h.short_1

pub put_slot-IsDpram :
    (which : ℕ) (s : Slot) (d : Dpram)
    → s.length < 1024
    → IsDpram d
    → IsDpram (put_control 0 (put_slot which s (d.controls 0)) d)
put_slot-IsDpram zero s d l h = record { size = h.size; short_0 = l; short_1 = h.short_1 }
put_slot-IsDpram (suc which) s d l h = record { size = h.size; short_0 = h.short_0; short_1 = l }

pub load-append_left :
    (a n : ℕ) (xs ys : Bytes) → a + n ≤ length xs → take n (drop a (xs ++ ys)) ≡ take n (drop a xs)
load-append_left zero zero xs ys h = refl
load-append_left zero (suc n) [] ys h = absurd (omega arith)
load-append_left zero (suc n) (x ∷ xs) ys h =
    ap (λ l. x ∷ l) (load-append_left zero n xs ys (omega arith))
load-append_left (suc a) n [] ys h = absurd (omega arith)
load-append_left (suc a) n (x ∷ xs) ys h = load-append_left a n xs ys (omega arith)

pub drop-append_right :
    (a : ℕ) (xs ys : Bytes) → length xs ≤ a → drop a (xs ++ ys) ≡ drop (a - length xs) ys
drop-append_right a [] ys h = ap (λ k. drop k ys) (omega arith)
drop-append_right zero (x ∷ xs) ys h = absurd (omega arith)
drop-append_right (suc a) (x ∷ xs) ys h =
    drop-append_right a xs ys (omega arith) ∙ ap (λ k. drop k ys) (omega arith)

-- What was stored is found again, and a store elsewhere leaves the rest.
pub load-store_self :
    (a n : ℕ) (xs m : Bytes) → length xs ≡ n → a ≤ length m → load a n (store a xs m) ≡ xs
load-store_self a n xs m e h = rw (append_assoc (take a m) xs (drop (a + length xs) m)) (
    ap (take n)
      (drop_exact a (take a m) (xs ++ drop (a + length xs) m) (omega (arith, length-take a m)))
    ∙ take_exact n xs (drop (a + length xs) m) e)

pub load-store_below :
    (a n b : ℕ) (xs m : Bytes) → a + n ≤ b → b ≤ length m → load a n (store b xs m) ≡ load a n m
load-store_below a n b xs m h l =
    let fits : a + n ≤ length (take b m) = omega (arith, length-take b m) in
    rw (append_assoc (take b m) xs (drop (b + length xs) m)) (
      load-append_left a n (take b m) (xs ++ drop (b + length xs) m) fits
      ∙ sym (load-append_left a n (take b m) (drop b m) fits)
      ∙ ap (load a n) (take-append-drop b m))

pub load-store_above :
    (a n b : ℕ) (xs m : Bytes)
    → b + length xs ≤ a
    → b ≤ length m
    → load a n (store b xs m) ≡ load a n m
load-store_above a n b xs m h l =
    let k : length (take b m ++ xs) ≡ b + length xs =
      omega (arith, length-append (take b m) xs, length-take b m) in
    ap (take n) (
      drop-append_right a (take b m ++ xs) (drop (b + length xs) m) (omega arith)
      ∙ drop-drop (a - length (take b m ++ xs)) (b + length xs) m
      ∙ ap (λ i. drop i m) (omega arith))

pub take-load : (o n : ℕ) (buf : Bytes) → take o buf ++ load o n buf ≡ take (o + n) buf
take-load zero n buf = ap (λ k. take k buf) (omega arith)
take-load (suc o) zero [] = let e : suc o + 0 ≡ suc o = omega arith in rw e refl
take-load (suc o) (suc n) [] = let e : suc o + suc n ≡ suc (o + suc n) = omega arith in rw e refl
take-load (suc o) n (x ∷ buf) =
    let e : suc o + n ≡ suc (o + n) = omega arith in rw e (ap (λ l. x ∷ l) (take-load o n buf))
