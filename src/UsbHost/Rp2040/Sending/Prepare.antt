-- ===== src/UsbHost/Rp2040/Sending/Prepare.antt =====
-- cotton-usb-host/src/host/rp2040.rs: `OutPacketiser::prepare` while the chip sends.
use cotton.Prelude.{
  ℕ, ◌+◌, ◌≤◌, ◌<◌, ◌≡◌, refl, sym, ap, subst, ◌∙◌, inl, inr, Bool, true, false, not, Bool-cases,
  Option, List, length, ltb, leb, arith,
}
use mathlib.Core.Bool.{true≢false}
use cotton.Prelude.Bytes.{Bytes}
use cotton.UsbHost.Rp2040.Dpram.{Dpram, slot, base, load, store}
use cotton.UsbHost.Rp2040.Dpram.Laws.{length-load, length-store, load-store_self}
use cotton.UsbHost.Rp2040.Packetiser.{OutPacketiser, prepare_out, send, copy}
use cotton.UsbHost.Rp2040.Polls.Ends.{Holds}
use cotton.UsbHost.Rp2040.Sending.{Packet, index, at}
use cotton.UsbHost.Rp2040.Sending.Queue.{prep-index}
use cotton.UsbHost.Rp2040.Sending.Invariant.{
  IsOver, Queued, queued, IsSending, Next, over, empty, some_bytes, next_packet-Next,
}
use cotton.UsbHost.Rp2040.Sending.Fill.{load-store_other, advance, filled, prepared-IsSending}

module _ (size : ℕ) (buf : Bytes) (first : Bool) (sent : List Packet) (turn : Bool) where
  module _ (room : size ≤ length buf) where
    -- The copy stays in the data, and finds them in memory.
    copied-IsSending :
        (p : OutPacketiser) (d : Dpram) (b : Bool) (n : ℕ) (last : Bool)
        → p.next_prep ≡ index b
        → IsSending size buf first p d sent turn
        → (at d b).available ≡ false
        → 0 < n
        → n ≤ p.remain
        → n ≤ p.packet_size
        → p.need_zero_size_packet ≡ false
        → (last ≡ true → n ≡ p.remain)
        → IsSending size buf first
            (advance size buf first sent turn p b n p.need_zero_size_packet)
            (filled size buf first sent turn p d b n last
              (store (base (index b)) (load p.offset n p.buf) d.memory))
            sent
            turn
    copied-IsSending p d b n last prep h free pos l k done ends =
        let source : length p.buf ≡ length buf = ap length h.source in
        let loaded : length (load p.offset n p.buf) ≡ n =
          length-load p.offset n p.buf (omega (arith, h.shared)) in
        prepared-IsSending size buf first sent turn p d b n last _ _ prep h free l
          (omega (arith, h.small)) done (λ o. omega (arith, o.0)) ends
          (length-store (base (index b)) _ d.memory
              (fits b _ loaded (omega (arith, h.small)) h.memory)
            ∙ h.memory)
          (load-store_self (base (index b)) n _ d.memory loaded (below b h.memory)
            ∙ ap (load p.offset n) h.source)
          (load-store_other b _ _ d.memory (other b h) (omega (arith, h.small)) h.memory)
      where
        below : (b : Bool) → length d.memory ≡ 4096 → base (index b) ≤ length d.memory
        below false e = omega arith
        below true e = omega arith

        fits :
            (b : Bool) (xs : Bytes)
            → length xs ≡ n
            → n ≤ 64
            → length d.memory ≡ 4096
            → base (index b) + length xs ≤ length d.memory
        fits false xs e s m = omega arith
        fits true xs e s m = omega arith

        other : (b : Bool) → IsSending size buf first p d sent turn → (at d (not b)).length ≤ 64
        other false h = h.short_1
        other true h = h.short_0

    in_data :
        (p : OutPacketiser) {d : Dpram} (n : ℕ)
        → IsSending size buf first p d sent turn
        → 0 < n
        → n ≤ p.remain
        → (ltb p.offset (length p.buf) ≡ true) × (leb (p.offset + n) (length p.buf) ≡ true)
    in_data p n h pos l =
        let source : length p.buf ≡ length buf = ap length h.source in
        let shared = h.shared in (ground arith, ground arith)

    no_need :
        (p : OutPacketiser) {d : Dpram} (n : ℕ)
        → IsSending size buf first p d sent turn
        → 0 < n
        → n ≤ p.remain
        → p.need_zero_size_packet ≡ false
    no_need p n h pos l = elim h.need [
      | inl off ↦ off
      | inr (first_buffer, none_left) ↦ absurd (omega arith)
    ]

    empty_at :
        {p : OutPacketiser} {d : Dpram}
        → IsSending size buf first p d sent turn
        → p.need_zero_size_packet ≡ true
        → 0 ≡ p.remain
    empty_at h e = elim h.need [
      | inl off ↦ absurd (true≢false (sym e ∙ off))
      | inr (first_buffer, none_left) ↦ sym none_left
    ]

    send-IsSending :
        (p : OutPacketiser) (d : Dpram) (b : Bool) (o : Option (ℕ × Bool) × Bool)
        → p.next_prep ≡ index b
        → IsSending size buf first p d sent turn
        → (at d b).available ≡ false
        → Next p.remain p.packet_size p.need_zero_size_packet o
        → Holds (λ r. IsSending size buf first r.1 r.2 sent turn) (send o p d)
    send-IsSending p d b o prep h free over = h
    send-IsSending p d true o prep h free (empty e) = elim h.need [
      | inl off ↦ absurd (true≢false (sym e ∙ off))
      | inr (first_buffer, none_left) ↦ absurd (omega arith)
    ]
    send-IsSending p d false o prep h free (empty e) = rw prep (
        prepared-IsSending size buf first sent turn p d false 0 true false d.memory prep h free
          (omega arith) (omega arith) refl (λ o. true≢false (sym e ∙ o.1)) (λ l. empty_at h e)
          h.memory refl refl)
    send-IsSending p d false o prep h free (some_bytes {n = n} {last = last} pos l k ends) =
        let start : ltb 0 n ≡ true = ground arith in
        let (from, to) = in_data p n h pos l in
        rw (prep, start, copy, from, to)
          (copied-IsSending p d false n last prep h free pos l k (no_need p n h pos l) ends)
    send-IsSending p d true o prep h free (some_bytes {n = n} {last = last} pos l k ends) =
        let (from, to) = in_data p n h pos l in
        rw (prep, copy, from, to)
          (copied-IsSending p d true n last prep h free pos l k (no_need p n h pos l) ends)

    pub prepare_out-IsSending :
        (p : OutPacketiser) (d : Dpram)
        → IsSending size buf first p d sent turn
        → Holds (λ r. IsSending size buf first r.1 r.2 sent turn) (prepare_out p d)
    unfolding prepare_out
    prepare_out-IsSending p d h = elim (Bool-cases (slot p.next_prep (d.controls 0)).available) [
      | inl q ↦ rw q h
      | inr q ↦
          let (b, prep) = filled_next h.queue in
          rw q (
            send-IsSending p d b _ prep h
              (subst (λ k. (slot k (d.controls 0)).available ≡ false) prep q)
              (next_packet-Next p.remain p.packet_size p.need_zero_size_packet h.positive))
    ]
      where
        filled_next :
            Queued (IsOver p) buf first p.next_prep p.offset d sent turn
            → (b : Bool) × (p.next_prep ≡ index b)
        filled_next (queued ps w e a f m) = prep-index d turn p.next_prep ps w
