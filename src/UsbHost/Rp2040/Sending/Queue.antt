-- ===== src/UsbHost/Rp2040/Sending/Queue.antt =====
-- cotton-usb-host/src/host/rp2040.rs: the packets that are prepared and not yet sent, and what a
-- preparation and a departure do to them.
use cotton.Prelude.{ℕ, ◌≡◌, refl, sym, ap, ◌∙◌, Bool, true, false, not, List, [], ◌∷◌, ◌++◌, arith}
use mathlib.Core.Bool.{true≢false}
use cotton.Prelude.Bytes.{Bytes}
use cotton.UsbHost.Rp2040.Dpram.{Slot, Dpram, put_slot, put_control, next, base, load}
use cotton.UsbHost.Rp2040.Sending.{Packet, index, at, packet, released}

-- `ps` are the packets waiting, oldest first, where `turn` goes out next and `prep` is filled next.
pub data Waiting (d : Dpram) (turn : Bool) (prep : ℕ) (ps : List Packet) : Type 0 where
  none :
      (at d turn).available ≡ false
      → (at d (not turn)).available ≡ false
      → prep ≡ index turn
      → ps ≡ []
      → Waiting d turn prep ps
  one :
      (at d turn).available ≡ true
      → (at d (not turn)).available ≡ false
      → prep ≡ index (not turn)
      → ps ≡ packet d turn ∷ []
      → Waiting d turn prep ps
  two :
      (at d turn).available ≡ true
      → (at d (not turn)).available ≡ true
      → prep ≡ index turn
      → ps ≡ packet d turn ∷ packet d (not turn) ∷ []
      → Waiting d turn prep ps

-- The next packet leaves: the others wait on.
pub data Left (d : Dpram) (turn : Bool) (prep : ℕ) (ps : List Packet) : Type 0 where
  left :
      {rest : List Packet}
      → ps ≡ packet d turn ∷ rest
      → Waiting (released turn d) (not turn) prep rest
      → Left d turn prep ps

pub Waiting-Left :
    (d : Dpram) (turn : Bool) (prep : ℕ) (ps : List Packet)
    → (at d turn).available ≡ true
    → Waiting d turn prep ps
    → Left d turn prep ps
Waiting-Left d turn prep ps a (none f g p e) = absurd (true≢false (sym a ∙ f))
Waiting-Left d false prep ps a (one f g p e) = left e (none g refl p refl)
Waiting-Left d true prep ps a (one f g p e) = left e (none g refl p refl)
Waiting-Left d false prep ps a (two f g p e) = left e (one g refl p refl)
Waiting-Left d true prep ps a (two f g p e) = left e (one g refl p refl)

-- What is prepared next goes to the end of the queue; `m` is the memory with its bytes in place.
pub fill-Waiting :
    (d : Dpram) (turn b : Bool) (ps : List Packet) (s : Slot) (m : Bytes)
    → (at d b).available ≡ false
    → s.available ≡ true
    → load (base (index (not b))) (at d (not b)).length m
      ≡ load (base (index (not b))) (at d (not b)).length d.memory
    → Waiting d turn (index b) ps
    → Waiting
        (put_control 0 (put_slot (index b) s (d.controls 0)) (record d { memory = m }))
        turn
        (next (index b))
        (ps ++ (s.pid, s.last, load (base (index b)) s.length m) ∷ [])
fill-Waiting d false false ps s m f a k (none _ g p e) = rw e (one a g refl refl)
fill-Waiting d true true ps s m f a k (none _ g p e) = rw e (one a g refl refl)
fill-Waiting d false true ps s m f a k (none _ g p e) = absurd (omega arith)
fill-Waiting d true false ps s m f a k (none _ g p e) = absurd (omega arith)
fill-Waiting d false true ps s m f a k (one h g p e) = rw e (
    two h a refl (
      ap
        (λ x.
          ((at d false).pid, (at d false).last, x) ∷ (s.pid, s.last, load (base 1) s.length m) ∷ [])
        (sym k)))
fill-Waiting d true false ps s m f a k (one h g p e) = rw e (
    two h a refl (
      ap
        (λ x.
          ((at d true).pid, (at d true).last, x) ∷ (s.pid, s.last, load (base 0) s.length m) ∷ [])
        (sym k)))
fill-Waiting d false false ps s m f a k (one h g p e) = absurd (omega arith)
fill-Waiting d true true ps s m f a k (one h g p e) = absurd (omega arith)
fill-Waiting d false false ps s m f a k (two h g p e) = absurd (true≢false (sym h ∙ f))
fill-Waiting d true true ps s m f a k (two h g p e) = absurd (true≢false (sym h ∙ f))
fill-Waiting d false true ps s m f a k (two h g p e) = absurd (omega arith)
fill-Waiting d true false ps s m f a k (two h g p e) = absurd (omega arith)

-- The buffer that is filled next.
pub prep-index :
    (d : Dpram) (turn : Bool) (prep : ℕ) (ps : List Packet)
    → Waiting d turn prep ps
    → (b : Bool) × (prep ≡ index b)
prep-index d turn prep ps (none f g p e) = (turn, p)
prep-index d turn prep ps (one f g p e) = (not turn, p)
prep-index d turn prep ps (two f g p e) = (turn, p)
