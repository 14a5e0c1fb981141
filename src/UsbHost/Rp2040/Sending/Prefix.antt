-- ===== src/UsbHost/Rp2040/Sending/Prefix.antt =====
-- cotton-usb-host/src/host/rp2040.rs: the packets that an `Out` transfer has sent so far, as a part
-- of those that it prepared.
use cotton.Prelude.{
  ℕ, ◌+◌, ◌≤◌, ◌≡◌, refl, sym, ap, ◌∙◌, Bool, not, min, List, [], ◌∷◌, ◌++◌, length, take, drop,
  append_assoc, take-append, take-append-drop, length-append, length-take, arith,
}
use cotton.Prelude.Bytes.{Bytes}
use cotton.UsbHost.Rp2040.Sending.{Packet, bytes_of, Alternates}

pub bytes_of-append : (ps qs : List Packet) → bytes_of (ps ++ qs) ≡ bytes_of ps ++ bytes_of qs
bytes_of-append [] qs = refl
bytes_of-append (p ∷ ps) qs =
    ap (λ l. p.2 ++ l) (bytes_of-append ps qs) ∙ sym (append_assoc p.2 (bytes_of ps) (bytes_of qs))

pub Alternates-left :
    (pid : Bool) (ps qs : List Packet) → Alternates pid (ps ++ qs) → Alternates pid ps
Alternates-left pid [] qs h = tt
Alternates-left pid (p ∷ ps) qs h = (h.0, Alternates-left (not pid) ps qs h.1)

-- A list that goes on to the first `k` bytes of `buf` is the first bytes of `buf` itself.
pub prefix_of-take :
    (k : ℕ) (xs ys buf : Bytes)
    → xs ++ ys ≡ take k buf
    → (length xs ≤ k) × (xs ≡ take (length xs) buf)
prefix_of-take k xs ys buf e =
    let whole : buf ≡ xs ++ (ys ++ drop k buf) =
      sym (take-append-drop k buf)
      ∙ ap (λ l. l ++ drop k buf) (sym e)
      ∙ append_assoc xs ys (drop k buf) in
    let size : length xs + length ys ≡ min k (length buf) =
      sym (length-append xs ys) ∙ ap length e ∙ length-take k buf in
    (omega (arith, size), sym (ap (take (length xs)) whole ∙ take-append xs (ys ++ drop k buf)))
