-- ===== src/UsbHost/Rp2040/Inner/InSafe.antt =====
-- cotton-usb-host/src/host/rp2040.rs: an `In` transfer and its buffer, whatever the chip does.
use cotton.Prelude.{
  ℕ, ◌+◌, ◌≤◌, ◌<◌, ◌≡◌, ◌∙◌, Bool, true, false, Bool-cases, inl, inr, length, ltb, leb, Option,
  none, some, arith,
}
use cotton.UsbHost.Rp2040.Dpram.{Dpram, slot, base, load}
use cotton.UsbHost.Rp2040.Dpram.Laws.{
  length-load, length-store, IsDpram, base-lt, slot-short, put_slot-IsDpram,
}
use cotton.UsbHost.Rp2040.Packetiser
use cotton.UsbHost.Rp2040.Packetiser.{InPacketiser, next_packet, prepare_in, offer}
use cotton.UsbHost.Rp2040.Depacketiser
use cotton.UsbHost.Rp2040.Depacketiser.{InDepacketiser, retire_in, receive, copy_in, copy}
use cotton.UsbHost.Rp2040.Polls.Ends.{Holds, bind-Holds}
use cotton.UsbHost.Rp2040.Transfer.{Usb, Inner}
use cotton.UsbHost.Rp2040.Inner.{prepare_one, retire_one, prepared, retired}

-- The transfer of at most `size` bytes to a buffer of `room`: what is stored and what is still
-- wanted are `size` together, so no copy leaves the buffer.
pub record IsWithin {H W : Type 0} (size room : ℕ) (r : Inner InPacketiser InDepacketiser × Usb H W)
    : Type 0 where
  pub shared : r.0.depacketiser.offset + r.0.depacketiser.remain ≡ size
  pub kept : length r.0.depacketiser.buf ≡ room
  pub short : r.0.packetiser.packet_size < 1024
  pub chip : IsDpram r.1.dpram

abbrev Armed : Bool × InPacketiser × Dpram → Type 0
Armed r = (r.1.packet_size < 1024) × IsDpram r.2

offer-Armed :
    (o : Option (ℕ × Bool) × Bool) (p : InPacketiser) (d : Dpram)
    → p.packet_size < 1024
    → IsDpram d
    → Holds Armed (offer o p d)
offer-Armed (none, need) p d l h = (l, h)
offer-Armed (some x, need) p d l h = (l, put_slot-IsDpram p.next_prep _ d l h)

prepare_in-Armed :
    (p : InPacketiser) (d : Dpram) → p.packet_size < 1024 → IsDpram d → Holds Armed (prepare_in p d)
unfolding prepare_in
prepare_in-Armed p d l h = elim (Bool-cases (slot p.next_prep (d.controls 0)).available) [
  | inl q ↦ rw q (l, h)
  | inr q ↦ rw q (offer-Armed _ p d l h)
]

abbrev Stored : ℕ → ℕ → Bool × InDepacketiser → Type 0
Stored size room r = (r.1.offset + r.1.remain ≡ size) × (length r.1.buf ≡ room)

receive-Stored :
    (size room n : ℕ) (p : InDepacketiser) (d : Dpram)
    → n ≤ p.remain
    → n < 1024
    → p.offset + p.remain ≡ size
    → size ≤ room
    → length p.buf ≡ room
    → IsDpram d
    → Holds (Stored size room) (receive n p d)
receive-Stored size room n p d l short shared fits kept chip = elim (Bool-cases (ltb 0 n)) [
  | inl q ↦
      let in_range : ltb p.offset (length p.buf) ≡ true = ground arith in
      let in_buf : leb (p.offset + n) (length p.buf) ≡ true = ground arith in
      let loaded =
        length-load (base p.next_retire) n d.memory
          (omega (arith, base-lt p.next_retire, chip.size)) in
      rw (q, in_range, in_buf)
        (
          omega arith,
          length-store p.offset (load (base p.next_retire) n d.memory) p.buf (omega arith) ∙ kept,
        )
  | inr q ↦ rw q (omega arith, kept)
]

retire_in-Stored :
    (size room : ℕ) (p : InDepacketiser) (d : Dpram)
    → p.offset + p.remain ≡ size
    → size ≤ room
    → length p.buf ≡ room
    → IsDpram d
    → Holds (Stored size room) (retire_in p d)
unfolding retire_in
retire_in-Stored size room p d shared fits kept chip =
    elim (Bool-cases (slot p.next_retire (d.controls 0)).full) [
      | inl q ↦ rw q (
          receive-Stored size room _ p d (omega arith)
            (omega (arith, slot-short p.next_retire d chip)) shared fits kept chip)
      | inr q ↦ rw q (shared, kept)
    ]

module _ {H W : Type 0} (size room : ℕ) where
  prepared-IsWithin :
      (i : Inner InPacketiser InDepacketiser) (s : Usb H W) (r : Bool × InPacketiser × Dpram)
      → IsWithin size room (i, s)
      → Armed r
      → IsWithin size room (prepared Packetiser.In i s r)
  prepared-IsWithin i s (true, p, d) h (l, c) = record {
    shared = h.shared;
    kept = h.kept;
    short = l;
    chip = c;
  }
  prepared-IsWithin i s (false, p, d) h (l, c) = record {
    shared = h.shared;
    kept = h.kept;
    short = l;
    chip = c;
  }

  pub prepare_one-IsWithin :
      (r : Inner InPacketiser InDepacketiser × Usb H W)
      → IsWithin size room r
      → Holds (IsWithin size room) (prepare_one Packetiser.In r)
  unfolding prepare_one
  prepare_one-IsWithin (i, s) h = elim (Bool-cases (ltb i.in_flight 2)) [
    | inl q ↦ rw q (
        bind-Holds Armed (IsWithin size room) (prepare_in i.packetiser s.dpram) _
          (prepare_in-Armed i.packetiser s.dpram h.short h.chip)
          (λ x g. prepared-IsWithin i s x h g))
    | inr q ↦ rw q h
  ]

  retired-IsWithin :
      (i : Inner InPacketiser InDepacketiser) (s : Usb H W) (r : Bool × InDepacketiser)
      → IsWithin size room (i, s)
      → Stored size room r
      → IsWithin size room (retired i r, s)
  retired-IsWithin i s (true, d) h (e, k) = record {
    shared = e;
    kept = k;
    short = h.short;
    chip = h.chip;
  }
  retired-IsWithin i s (false, d) h (e, k) = record {
    shared = e;
    kept = k;
    short = h.short;
    chip = h.chip;
  }

  pub retire_one-IsWithin :
      size ≤ room
      → (r : Inner InPacketiser InDepacketiser × Usb H W) → IsWithin size room r
      → Holds (IsWithin size room) (retire_one Depacketiser.In r)
  unfolding retire_one
  retire_one-IsWithin fits (i, s) h = elim (Bool-cases (ltb 0 i.in_flight)) [
    | inl q ↦ rw q (
        bind-Holds (Stored size room) (IsWithin size room) (retire_in i.depacketiser s.dpram) _
          (retire_in-Stored size room i.depacketiser s.dpram h.shared fits h.kept h.chip)
          (λ x g. retired-IsWithin i s x h g))
    | inr q ↦ rw q h
  ]
