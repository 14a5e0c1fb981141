-- ===== src/UsbHost/Rp2040/Receiving/Step.antt =====
-- cotton-usb-host/src/host/rp2040.rs: `InPacketiser::prepare` and `InDepacketiser::retire` while the
-- chip receives.
use cotton.Prelude.{
  ℕ, ◌+◌, ◌-◌, ◌≤◌, ◌<◌, ◌≡◌, refl, sym, ap, subst, ◌∙◌, min, Bool, true, false, Bool-cases, inl,
  inr, Option, none, some, ◌++◌, length, length-append, take, ltb, leb, append_assoc, arith,
}
use cotton.Prelude.Bytes.{Bytes}
use cotton.UsbHost.Rp2040.Dpram.{
  Slot, Dpram, slot, put_slot, put_control, next, toggle, base, load, store,
}
use cotton.UsbHost.Rp2040.Dpram.Laws.{length-load}
use cotton.UsbHost.Rp2040.Packetiser.{InPacketiser, prepare_in, offer}
use cotton.UsbHost.Rp2040.Depacketiser.{InDepacketiser, retire_in, receive, copy_in}
use cotton.UsbHost.Rp2040.Polls.Ends.{Holds, bind-Holds}
use cotton.UsbHost.Rp2040.Sending.{index, at}
use cotton.UsbHost.Rp2040.Receiving.{payload}
use cotton.UsbHost.Rp2040.Receiving.Stages.{
  Stages, prepared-Stages, Retired, retired, retired-Stages, prep_of-Stages, waiting-le,
  waiting_not_full,
}
use cotton.UsbHost.Rp2040.Receiving.Store.{
  filled, store-filled, filled-append, load-take, length-filled,
}
use cotton.UsbHost.Rp2040.Receiving.Invariant.{Staged, staged, IsReceiving, short_at, in_memory}

abbrev pub one_more : Bool → ℕ → ℕ
one_more true n = n + 1
one_more false n = n

abbrev pub one_less : Bool → ℕ → ℕ
one_less true n = n - 1
one_less false n = n

module _ (size : ℕ) (orig : Bytes) (received : Bytes) (turn : Bool) where
  offer-IsReceiving :
      (p : InPacketiser) (q : InDepacketiser) (n : ℕ) (d : Dpram) (b : Bool)
      (o : Option (ℕ × Bool) × Bool)
      → n < 2
      → p.next_prep ≡ index b
      → IsReceiving 2 size orig p q n d received turn
      → Holds (λ r. IsReceiving 2 size orig r.1 q (one_more r.0 n) r.2 received turn) (offer o p d)
  offer-IsReceiving p q n d b (none, need) l e h = record {
    shared = h.shared;
    kept = h.kept;
    small = h.small;
    memory = h.memory;
    short_0 = h.short_0;
    short_1 = h.short_1;
    queue = same h.queue;
  }
    where
      same :
          Staged 2 size orig p q n d received turn
          → Staged 2 size orig (record p { need_zero_size_packet = need }) q n d received turn
      same (staged came xs w l' e o b) = staged came xs w l' e o b
  offer-IsReceiving p q n d b (some (this_packet, is_last), need) l e h = rw e (record {
    shared = h.shared;
    kept = h.kept;
    small = h.small;
    memory = h.memory;
    short_0 = short_0 b;
    short_1 = short_1 b;
    queue = more h.queue;
  })
    where
      asked : Slot
      asked = record (at d b) {
        full = false;
        pid = toggle (index b) p.initial_toggle;
        last = is_last;
        length = p.packet_size;
        available = true;
      }

      there : Dpram
      there = put_control 0 (put_slot (index b) asked (d.controls 0)) d

      short_0 : (b : Bool) → (put_slot (index b) asked (d.controls 0)).slot_0.length ≤ 64
      short_0 false = h.small
      short_0 true = h.short_0

      short_1 : (b : Bool) → (put_slot (index b) asked (d.controls 0)).slot_1.length ≤ 64
      short_1 false = h.short_1
      short_1 true = h.small

      more :
          Staged 2 size orig p q n d received turn
          → Staged 2 size orig
              (record p {
                remain = p.remain - this_packet;
                next_prep = next (index b);
                need_zero_size_packet = need;
              })
              q
              (n + 1)
              there
              received
              turn
      more (staged came xs w l' f o g) =
          let w' = subst (λ k. Stages d q.next_retire turn k n xs) e w in
          let w₁ = prepared-Stages d q.next_retire turn b n xs asked l refl refl w' in
          staged came xs w₁ (waiting-le _ _ _ _ _ _ w₁) f o g

  pub prepare_in-IsReceiving :
      (p : InPacketiser) (q : InDepacketiser) (n : ℕ) (d : Dpram)
      → n < 2
      → IsReceiving 2 size orig p q n d received turn
      → Holds
          (λ r. IsReceiving 2 size orig r.1 q (one_more r.0 n) r.2 received turn)
          (prepare_in p d)
  unfolding prepare_in
  prepare_in-IsReceiving p q n d l h =
      elim (Bool-cases (slot p.next_prep (d.controls 0)).available) [
        | inl a ↦ rw a h
        | inr a ↦ let (b, e) = prep h.queue in rw a (offer-IsReceiving p q n d b _ l e h)
      ]
    where
      prep : Staged 2 size orig p q n d received turn → (b : Bool) × (p.next_prep ≡ index b)
      prep (staged came xs w l' f o g) = prep_of-Stages d q.next_retire turn p.next_prep n xs w

  -- The copy of `m` bytes, of the `x` that the buffer holds.
  copy_in-filled :
      (q : InDepacketiser) (d : Dpram) (came x : Bytes) (m : ℕ)
      → load (base q.next_retire) m d.memory ≡ take m x
      → m ≡ min q.remain (length x)
      → q.offset + q.remain ≡ size
      → q.offset ≡ min size (length came)
      → size ≤ length orig
      → length q.buf ≡ length orig
      → q.buf ≡ filled q.offset came orig
      → Holds (λ b. b ≡ filled (q.offset + m) (came ++ x) orig) (copy_in m q d.memory)
  copy_in-filled q d came x m ld e shared o room kept f = elim (Bool-cases (ltb 0 m)) [
    | inl pos ↦
        let start : ltb q.offset (length q.buf) ≡ true = ground arith in
        let end : leb (q.offset + m) (length q.buf) ≡ true = ground arith in
        let all : q.offset ≡ length came = ground arith in
        rw (pos, start, end)
          (ap (λ l. store q.offset l q.buf) ld
            ∙ ap (store q.offset (take m x)) f
            ∙ store-filled q.offset m came x orig all (omega arith))
    | inr none_left ↦
        let z : q.offset + m ≡ q.offset = ground arith in
        rw (none_left, z) (f ∙ filled-append q.offset came x orig (omega arith))
  ]

  receive-IsReceiving :
      (k : ℕ) (p : InPacketiser) (q : InDepacketiser) (n : ℕ) (d : Dpram) (came xs : Bytes)
      → size ≤ length orig
      → received ≡ came ++ xs
      → q.offset ≡ min size (length came)
      → q.buf ≡ filled q.offset came orig
      → Retired d q.next_retire turn p.next_prep n xs k
      → IsReceiving k size orig p q n d received turn
      → Holds
          (λ r. IsReceiving (k - 1) size orig p r.1 (one_less r.0 n) d received turn)
          (receive (min q.remain (slot q.next_retire (d.controls 0)).length) q d)
  receive-IsReceiving k p q n d came xs room e o f (retired b rest at_b x w fewer) h =
      let l : (slot q.next_retire (d.controls 0)).length ≡ (at d b).length =
        ap (λ k. (slot k (d.controls 0)).length) at_b in
      let m = min q.remain (slot q.next_retire (d.controls 0)).length in
      let size_x : length (payload d b) ≡ (at d b).length =
        length-load (base (index b)) (at d b).length d.memory
          (in_memory b d.memory (at d b).length (short_at b h) h.memory) in
      let ld : load (base q.next_retire) m d.memory ≡ take m (payload d b) =
        ap (λ k. load (base k) m d.memory) at_b
        ∙ load-take (base (index b)) m (at d b).length d.memory (omega arith) in
      let exact : m ≡ min q.remain (length (payload d b)) = omega arith in
      let offset : q.offset + m ≡ min size (length (came ++ payload d b)) =
        omega (arith, length-append came (payload d b), h.shared) in
      bind-Holds (λ buf. buf ≡ filled (q.offset + m) (came ++ payload d b) orig) _
        (copy_in m q d.memory) _
        (copy_in-filled q d came (payload d b) m ld exact h.shared o room h.kept f)
        (λ buf g. record {
          shared = omega (arith, h.shared);
          kept =
              ap length g
              ∙ length-filled (q.offset + m) (came ++ payload d b) orig (omega arith) (omega arith);
          small = h.small;
          memory = h.memory;
          short_0 = h.short_0;
          short_1 = h.short_1;
          queue =
              staged (came ++ payload d b) rest w (omega arith)
                (e ∙ ap (λ y. came ++ y) x ∙ sym (append_assoc came (payload d b) rest)) offset g;
        })

  pub retire_in-IsReceiving :
      (k : ℕ) (p : InPacketiser) (q : InDepacketiser) (n : ℕ) (d : Dpram)
      → 0 < n
      → size ≤ length orig
      → IsReceiving k size orig p q n d received turn
      → Holds
          (λ r. IsReceiving (k - 1) size orig p r.1 (one_less r.0 n) d received turn)
          (retire_in q d)
  unfolding retire_in
  retire_in-IsReceiving k p q n d l room h =
      elim (Bool-cases (slot q.next_retire (d.controls 0)).full) [
        | inl f ↦ rw f (taken f h.queue)
        | inr f ↦ rw f (still f)
      ]
    where
      fewer :
          {m : ℕ} {xs : Bytes}
          → m ≤ k
          → Retired d q.next_retire turn p.next_prep n xs m
          → Retired d q.next_retire turn p.next_prep n xs k
      fewer l' (retired b rest e x w s) = retired b rest e x w (omega arith)

      still :
          (slot q.next_retire (d.controls 0)).full ≡ false
          → IsReceiving (k - 1) size orig p q n d received turn
      still f = record {
        shared = h.shared;
        kept = h.kept;
        small = h.small;
        memory = h.memory;
        short_0 = h.short_0;
        short_1 = h.short_1;
        queue = none_waits h.queue;
      }
        where
          none_waits :
              Staged k size orig p q n d received turn
              → Staged (k - 1) size orig p q n d received turn
          none_waits (staged came xs w l' e o g) =
              staged came xs w
                (omega (arith, waiting_not_full d q.next_retire turn p.next_prep n xs f w)) e o g

      taken :
          (slot q.next_retire (d.controls 0)).full ≡ true
          → Staged k size orig p q n d received turn
          → Holds
              (λ r. IsReceiving (k - 1) size orig p r.1 (one_less r.0 n) d received turn)
              (receive (min q.remain (slot q.next_retire (d.controls 0)).length) q d)
      taken f (staged came xs w l' e o g) =
          receive-IsReceiving k p q n d came xs room e o g
            (fewer l' (retired-Stages d q.next_retire turn p.next_prep n xs l f w)) h
