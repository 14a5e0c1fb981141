-- ===== src/UsbHost/Rp2040/Packetiser/Laws.antt =====
-- cotton-usb-host/src/host/rp2040.rs: the packets that a transfer is cut into.
use cotton.Prelude.{
  ℕ, zero, suc, ◌+◌, ◌-◌, ◌%◌, ◌<◌, ◌≡◌, ◌⊎◌, refl, sym, ap, subst, ◌∙◌, Bool, true, false, inl,
  inr, Option, none, some, List, [], ◌∷◌, ltb, ◌==◌, arith,
}
use native.Mathlib.Nat.{mod_self, zero-mod, mod-eq_of_lt, mod-eq-sub-mod}
use cotton.UsbHost.Rp2040.Packetiser.{
  next_packet, ZeroLengthPacket, as_needed, never, needs_zero_size_packet,
}
use cotton.UsbHost.Rp2040.Polls.Ends.{Holds}

-- The calls of `next_packet` until it has no more, each taking its packet off what remains.
abbrev pub packets_from : ℕ → ℕ → ℕ → Option (ℕ × Bool) × Bool → List (ℕ × Bool)
packets_from zero remain packet_size r = []
packets_from (suc fuel) remain packet_size (none, need) = []
packets_from (suc fuel) remain packet_size (some (n, last), need) =
    (n, last)
    ∷ packets_from fuel (remain - n) packet_size (next_packet (remain - n) packet_size need)

abbrev pub packets : ℕ → ℕ → Bool → List (ℕ × Bool)
packets remain packet_size need =
    packets_from (suc (suc remain)) remain packet_size (next_packet remain packet_size need)

-- How USB cuts `total` bytes: full packets, and one more that is marked as the last; a transfer of
-- open length needs that one to be short.
pub data IsCut (packet_size : ℕ) (open_ended : Bool) : ℕ → List (ℕ × Bool) → Type 0 where
  short : {n : ℕ} → n < packet_size → IsCut packet_size open_ended n ((n, true) ∷ [])
  exact : open_ended ≡ false → IsCut packet_size open_ended packet_size ((packet_size, true) ∷ [])
  full :
      {n : ℕ} {ps : List (ℕ × Bool)}
      → IsCut packet_size open_ended n ps
      → IsCut packet_size open_ended (packet_size + n) ((packet_size, false) ∷ ps)

-- The flag that says whether a zero-length packet is still to come.
abbrev IsNeed : Bool → ℕ → ℕ → Bool → Type 0
IsNeed true packet_size remain need = need ≡ (remain % packet_size == 0)
IsNeed false packet_size remain need = need ≡ (remain == 0)

IsNeed-zero :
    (open_ended : Bool) (n : ℕ) (need : Bool) → IsNeed open_ended (suc n) 0 need → need ≡ true
IsNeed-zero true n need h = ground (arith, zero-mod (suc n))
IsNeed-zero false n need h = h

IsNeed-below :
    (open_ended : Bool) (packet_size remain : ℕ) (need : Bool)
    → 0 < remain
    → remain < packet_size
    → IsNeed open_ended packet_size remain need
    → need ≡ false
IsNeed-below true packet_size remain need p l h = ground (arith, mod-eq_of_lt l)
IsNeed-below false packet_size remain need p l h = ground arith

IsNeed-at_size :
    (open_ended : Bool) (n : ℕ) (need : Bool)
    → IsNeed open_ended (suc n) (suc n) need
    → need ≡ open_ended
IsNeed-at_size true n need h = ground (arith, mod_self (suc n))
IsNeed-at_size false n need h = ground arith

IsNeed-above :
    (open_ended : Bool) (packet_size remain : ℕ) (need : Bool)
    → packet_size < remain
    → IsNeed open_ended packet_size remain need
    → IsNeed open_ended packet_size (remain - packet_size) need
IsNeed-above true packet_size remain need l h =
    h ∙ ap (λ k. k == 0) (mod-eq-sub-mod {n = remain} {m = packet_size} (omega arith))
IsNeed-above false packet_size remain need l h = ground arith

-- After the last packet there is no more; a zero-length packet is the last.
over :
    (fuel none_left packet_size : ℕ)
    → none_left ≡ 0
    → packets_from fuel none_left packet_size (next_packet none_left packet_size false) ≡ []
unfolding next_packet
over zero z packet_size e = refl
over (suc fuel) zero packet_size e = refl
over (suc fuel) (suc z) packet_size e = absurd (omega arith)

zero_length :
    (fuel none_left packet_size : ℕ)
    → none_left ≡ 0
    → packets_from (suc fuel) none_left packet_size (next_packet none_left packet_size true)
      ≡ (0, true) ∷ []
unfolding next_packet
zero_length fuel zero packet_size e =
    ap (λ ps. (0, true) ∷ ps) (over fuel (0 - 0) packet_size (omega arith))
zero_length fuel (suc z) packet_size e = absurd (omega arith)

recut :
    {packet_size m n : ℕ} {open_ended : Bool} {ps : List (ℕ × Bool)}
    → m ≡ n
    → IsCut packet_size open_ended m ps
    → IsCut packet_size open_ended n ps
recut {packet_size = packet_size} {open_ended = open_ended} {ps = ps} e h =
    subst (λ k. IsCut packet_size open_ended k ps) e h

not_zero : (n : ℕ) → (suc n == 0) ≡ false
not_zero n = ground arith

module _ (open_ended : Bool) (n : ℕ) where
  at_size :
      (fuel : ℕ) (need : Bool)
      → need ≡ open_ended
      → IsCut
          (suc n)
          open_ended
          (suc n)
          (packets_from (suc (suc fuel)) (suc n) (suc n) (next_packet (suc n) (suc n) need))
  unfolding next_packet
  at_size fuel false h =
      let x : ltb (suc n) (suc n) ≡ false = ground arith in
      rw (not_zero n, x)
        (rw (over (suc fuel) (suc n - suc n) (suc n) (omega arith)) (exact (sym h)))
  at_size fuel true h =
      let x : ltb (suc n) (suc n) ≡ false = ground arith in
      let e : suc n + 0 ≡ suc n = omega arith in
      rw (not_zero n, x)
        (rw (zero_length fuel (suc n - suc n) (suc n) (omega arith))
          (recut e (full (short (omega arith)))))

  packets_from-IsCut :
      (fuel remain : ℕ) (need : Bool)
      → IsNeed open_ended (suc n) remain need
      → remain < fuel
      → IsCut
          (suc n)
          open_ended
          remain
          (packets_from (suc fuel) remain (suc n) (next_packet remain (suc n) need))
  unfolding next_packet
  packets_from-IsCut fuel zero need h l =
      rw (IsNeed-zero open_ended n need h)
        (rw (over fuel (0 - 0) (suc n) (omega arith)) (short (omega arith)))
  packets_from-IsCut zero (suc r) need h l = elim l [ ]
  packets_from-IsCut (suc fuel) (suc r) need h l = elim (cases (suc r)) [
    | inl below ↦
        let x : ltb (suc r) (suc n) ≡ true = ground arith in
        let none_left = IsNeed-below open_ended (suc n) (suc r) need (omega arith) below h in
        rw (not_zero r, x, none_left)
          (rw (over (suc fuel) (suc r - suc r) (suc n) (omega arith)) (short below))
    | inr (inl same) ↦
        let h' = subst (λ k. IsNeed open_ended (suc n) k need) same h in
        rw same (at_size fuel need (IsNeed-at_size open_ended n need h'))
    | inr (inr above) ↦
        let x : ltb (suc r) (suc n) ≡ false = ground arith in
        let y : ltb (suc n) (suc r) ≡ true = ground arith in
        let e : suc n + (suc r - suc n) ≡ suc r = omega arith in
        let rest =
          packets_from-IsCut fuel (suc r - suc n) need
            (IsNeed-above open_ended (suc n) (suc r) need above h) (omega arith) in
        rw (not_zero r, x, y) (recut e (full rest))
  ]
    where
      cases : (r : ℕ) → (r < suc n) ⊎ ((r ≡ suc n) ⊎ (suc n < r))
      cases r = ground arith

abbrev pub is_open : ZeroLengthPacket → Bool
is_open as_needed = true
is_open never = false

-- The packets of a transfer of any size, at a packet size that is not 0: all but the last are full,
-- only the last is marked so, and together they have the transfer's size. Where a zero-length
-- packet is sent as needed, the last packet is short; otherwise it may be full.
pub packets-IsCut :
    (size packet_size : ℕ) (zlp : ZeroLengthPacket)
    → 0 < packet_size
    → Holds
        (λ need. IsCut packet_size (is_open zlp) size (packets size packet_size need))
        (needs_zero_size_packet zlp size packet_size)
unfolding needs_zero_size_packet
packets-IsCut size zero zlp pos = absurd (omega arith)
packets-IsCut size (suc n) as_needed pos =
    packets_from-IsCut true n (suc size) size _ refl (omega arith)
packets-IsCut size (suc n) never pos =
    packets_from-IsCut false n (suc size) size _ refl (omega arith)
