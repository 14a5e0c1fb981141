-- ===== src/UsbHost/Rp2040/Sending/Invariant.antt =====
-- cotton-usb-host/src/host/rp2040.rs: what holds of an `Out` packetiser, the buffers and the chip.
use cotton.Prelude.{
  ℕ, zero, suc, ◌+◌, ◌≤◌, ◌<◌, ◌≡◌, ◌⊎◌, refl, sym, ap, ◌∙◌, inl, inr, Bool, true, false, not,
  Bool-cases, Option, none, some, List, [], ◌∷◌, ◌++◌, length, take, ltb, ◌==◌, append_assoc,
  append-nil, arith,
}
use mathlib.Core.Bool.{true≢false}
use cotton.Prelude.Bytes.{Bytes}
use cotton.UsbHost.Rp2040.Dpram.{Dpram, toggle}
use cotton.UsbHost.Rp2040.Packetiser.{OutPacketiser, next_packet}
use cotton.UsbHost.Rp2040.Sending.{Packet, bytes_of, Alternates}
use cotton.UsbHost.Rp2040.Sending.Queue.{Waiting}

-- Packets in the order of the data, with alternating PIDs.
module _ where
  -- The PID that comes next.
  abbrev pub pid_after : Bool → List Packet → Bool
  pid_after pid [] = pid
  pid_after pid (p ∷ ps) = pid_after (not pid) ps

  pub bytes_of-snoc : (ps : List Packet) (p : Packet) → bytes_of (ps ++ p ∷ []) ≡ bytes_of ps ++ p.2
  bytes_of-snoc [] p = append-nil p.2
  bytes_of-snoc (q ∷ ps) p =
      ap (λ l. q.2 ++ l) (bytes_of-snoc ps p) ∙ sym (append_assoc q.2 (bytes_of ps) p.2)

  pub Alternates-snoc :
      (pid : Bool) (ps : List Packet) (p : Packet)
      → Alternates pid ps
      → p.0 ≡ pid_after pid ps
      → Alternates pid (ps ++ p ∷ [])
  Alternates-snoc pid [] p h e = (e, tt)
  Alternates-snoc pid (q ∷ ps) p h e = (h.0, Alternates-snoc (not pid) ps p h.1 e)

  pub pid_after-snoc :
      (pid : Bool) (ps : List Packet) (p : Packet)
      → pid_after pid (ps ++ p ∷ []) ≡ not (pid_after pid ps)
  pid_after-snoc pid [] p = refl
  pid_after-snoc pid (q ∷ ps) p = pid_after-snoc (not pid) ps p

-- Only the packet at the end can be marked as the last, and then the transfer is `over`.
module _ where
  abbrev pub Marked : Type 0 → List Packet → Type 0
  Marked over [] = Unit
  Marked over (p ∷ []) = p.1 ≡ true → over
  Marked over (p ∷ q ∷ ps) = (p.1 ≡ false) × Marked over (q ∷ ps)

  pub Marked-snoc :
      {over over' : Type 0} (ps : List Packet) (p : Packet)
      → (over → ⊥)
      → (p.1 ≡ true → over')
      → Marked over ps
      → Marked over' (ps ++ p ∷ [])
  Marked-snoc [] p n e h = e
  Marked-snoc (q ∷ []) p n e h = (elim (Bool-cases q.1) [ inl l ↦ absurd (n (h l)) | inr l ↦ l ], e)
  Marked-snoc (q ∷ r ∷ ps) p n e h = (h.0, Marked-snoc (r ∷ ps) p n e h.1)

  -- Where the last packet was sent, nothing waits and the transfer is over.
  pub Marked-over :
      {over : Type 0} (ps qs : List Packet) (p : Packet)
      → p.1 ≡ true
      → Marked over ((ps ++ p ∷ []) ++ qs)
      → (qs ≡ []) × over
  Marked-over [] [] p l h = (refl, h l)
  Marked-over [] (q ∷ qs) p l h = absurd (true≢false (sym l ∙ h.0))
  Marked-over (q ∷ []) qs p l h = Marked-over [] qs p l h.1
  Marked-over (q ∷ r ∷ ps) qs p l h = Marked-over (r ∷ ps) qs p l h.1

-- What was prepared, whether sent or still waiting, is the data up to the packetiser's offset.
pub data Queued (over : Type 0) (buf : Bytes) (first : Bool) (prep offset : ℕ) (d : Dpram)
    (sent : List Packet) (turn : Bool) : Type 0 where
  queued :
      (ps : List Packet)
      → Waiting d turn prep ps
      → bytes_of (sent ++ ps) ≡ take offset buf
      → Alternates first (sent ++ ps)
      → pid_after first (sent ++ ps) ≡ toggle prep first
      → Marked over (sent ++ ps)
      → Queued over buf first prep offset d sent turn

-- The packetiser has nothing more to send.
abbrev pub IsOver : OutPacketiser → Type 0
IsOver p = (p.remain ≡ 0) × (p.need_zero_size_packet ≡ false)

-- The transfer sends `size` bytes of `buf`, and its first packet has the PID `first`.
pub record IsSending (size : ℕ) (buf : Bytes) (first : Bool) (p : OutPacketiser) (d : Dpram)
    (sent : List Packet) (turn : Bool) : Type 0 where
  pub source : p.buf ≡ buf
  pub pid : p.initial_pid ≡ first
  pub shared : p.offset + p.remain ≡ size
  pub small : p.packet_size ≤ 64
  pub positive : 0 < p.packet_size
  pub need : (p.need_zero_size_packet ≡ false) ⊎ ((p.next_prep ≡ 0) × (p.remain ≡ 0))
  pub memory : length d.memory ≡ 4096
  pub short_0 : (d.controls 0).slot_0.length ≤ 64
  pub short_1 : (d.controls 0).slot_1.length ≤ 64
  pub queue : Queued (IsOver p) buf first p.next_prep p.offset d sent turn

-- What `next_packet` can answer.
pub data Next (remain packet_size : ℕ) (need : Bool) : Option (ℕ × Bool) × Bool → Type 0 where
  over : Next remain packet_size need (none, need)
  empty : need ≡ true → Next remain packet_size need (some (0, true), false)
  some_bytes :
      {n : ℕ} {last : Bool}
      → 0 < n
      → n ≤ remain
      → n ≤ packet_size
      → (last ≡ true → n ≡ remain)
      → Next remain packet_size need (some (n, last), need)

pub next_packet-Next :
    (remain packet_size : ℕ) (need : Bool)
    → 0 < packet_size
    → Next remain packet_size need (next_packet remain packet_size need)
unfolding next_packet
next_packet-Next zero packet_size false h = over
next_packet-Next zero packet_size true h = empty refl
next_packet-Next (suc r) packet_size need h =
    let some_left : (suc r == 0) ≡ false = ground arith in
    elim (Bool-cases (ltb (suc r) packet_size)) [
      | inl q ↦
          rw (some_left, q) (some_bytes (omega arith) (omega arith) (ground arith) (λ e. refl))
      | inr q ↦ elim (Bool-cases (ltb packet_size (suc r))) [
        | inl q' ↦
            rw (some_left, q, q')
              (some_bytes h (ground arith) (omega arith) (λ e. absurd (true≢false (sym e))))
        | inr q' ↦
            rw (some_left, q, q')
              (some_bytes (omega arith) (omega arith) (ground arith) (λ e. refl))
      ]
    ]
