-- ===== src/UsbHost/Rp2040/Receiving/Store.antt =====
-- cotton-usb-host/src/host/rp2040.rs: what the copies of `InDepacketiser::retire` make of a buffer.
use cotton.Prelude.{
  ℕ, zero, suc, ◌+◌, ◌-◌, ◌≤◌, ◌≡◌, refl, sym, ap, ◌∙◌, [], ◌∷◌, ◌++◌, length, take, drop,
  length-append, length-take, length-drop, take_exact, drop-drop, arith,
}
use cotton.Prelude.Bytes.{Bytes}
use cotton.UsbHost.Rp2040.Dpram.{load, store}
use cotton.UsbHost.Rp2040.Dpram.Laws.{load-append_left, drop-append_right}

take-take : (m n : ℕ) (xs : Bytes) → m ≤ n → take m (take n xs) ≡ take m xs
take-take zero n xs h = refl
take-take (suc m) zero xs h = absurd (omega arith)
take-take (suc m) (suc n) [] h = refl
take-take (suc m) (suc n) (x ∷ xs) h = ap (λ l. x ∷ l) (take-take m n xs (omega arith))

take-append_more : (xs ys : Bytes) (m : ℕ) → take (length xs + m) (xs ++ ys) ≡ xs ++ take m ys
take-append_more [] ys m = ap (λ k. take k ys) (omega arith)
take-append_more (x ∷ xs) ys m =
    let e : suc (length xs) + m ≡ suc (length xs + m) = omega arith in
    rw e (ap (λ l. x ∷ l) (take-append_more xs ys m))

-- The first `o` bytes of what came, and the buffer's own bytes from there on.
abbrev pub filled : ℕ → Bytes → Bytes → Bytes
filled o came orig = take o came ++ drop o orig

-- Some more bytes at the offset `o`, where all that came so far is stored.
pub store-filled :
    (o m : ℕ) (came xs orig : Bytes)
    → o ≡ length came
    → m ≤ length xs
    → store o (take m xs) (filled o came orig) ≡ filled (o + m) (came ++ xs) orig
store-filled o m came xs orig e h =
    let all : length (take o came) ≡ o = omega (arith, length-take o came) in
    let size : length (take m xs) ≡ m = omega (arith, length-take m xs) in
    let whole : take o came ≡ came = ap (λ k. take k came) e ∙ take_all came in
    let front : take o (filled o came orig) ≡ came =
      take_exact o (take o came) (drop o orig) all ∙ whole in
    let back : drop (o + length (take m xs)) (filled o came orig) ≡ drop (o + m) orig =
      drop-append_right (o + length (take m xs)) (take o came) (drop o orig) (omega arith)
      ∙ drop-drop (o + length (take m xs) - length (take o came)) o orig
      ∙ ap (λ k. drop k orig) (omega arith) in
    let more : take (o + m) (came ++ xs) ≡ came ++ take m xs =
      ap (λ k. take (k + m) (came ++ xs)) e ∙ take-append_more came xs m in
    rw (front, back, more) refl
  where
    take_all : (xs : Bytes) → take (length xs) xs ≡ xs
    take_all [] = refl
    take_all (x ∷ xs) = ap (λ l. x ∷ l) (take_all xs)

-- No more bytes: what came beyond the offset is dropped.
pub filled-append :
    (o : ℕ) (came xs orig : Bytes)
    → o ≤ length came
    → filled o came orig ≡ filled o (came ++ xs) orig
filled-append o came xs orig h =
    ap (λ l. l ++ drop o orig) (sym (load-append_left 0 o came xs (omega arith)))

-- A part of what a buffer holds.
pub load-take : (at m n : ℕ) (memory : Bytes) → m ≤ n → load at m memory ≡ take m (load at n memory)
load-take at m n memory h = sym (take-take m n (drop at memory) h)

pub length-filled :
    (o : ℕ) (came orig : Bytes)
    → o ≤ length came
    → o ≤ length orig
    → length (filled o came orig) ≡ length orig
length-filled o came orig h l =
    length-append (take o came) (drop o orig)
    ∙ (omega (arith, length-take o came, length-drop o orig))
