-- ===== src/UsbHost/Rp2040/Receiving/Steps.antt =====
-- cotton-usb-host/src/host/rp2040.rs: every step of an `In` transfer keeps what came.
use cotton.Prelude.{
  ℕ, ◌-◌, ◌≤◌, ◌≡◌, ◌⊎◌, ap, ◌∙◌, min, Bool, true, false, Bool-cases, inl, inr, some, ◌++◌, length,
  ltb, append-nil, arith,
}
use cotton.Prelude.Bytes.{Bytes}
use cotton.Prelude.Outcome.{Outcome, returns, panics}
use cotton.UsbHost.Rp2040.Dpram.{Dpram}
use cotton.UsbHost.Rp2040.Packetiser
use cotton.UsbHost.Rp2040.Packetiser.{InPacketiser, prepare_in}
use cotton.UsbHost.Rp2040.Depacketiser
use cotton.UsbHost.Rp2040.Depacketiser.{InDepacketiser, retire_in}
use cotton.UsbHost.Rp2040.Pac.{Pac, Field}
use cotton.UsbHost.Rp2040.Polls.Ends.{Holds, bind-Holds}
use cotton.UsbHost.Rp2040.Transfer.{Usb, Inner, poll}
use cotton.UsbHost.Rp2040.Inner.{
  prepare_one, retire_one, prepared, retired, finish, disable_interrupts,
}
use cotton.UsbHost.Rp2040.Inner.Keeps.{AreSteps, poll_keeps, disable_interrupts_keeps}
use cotton.UsbHost.Rp2040.Receiving.{Receiver, IsReceiver, Receives, idle, receive, OnlyReceives}
use cotton.UsbHost.Rp2040.Receiving.Stages.{waiting_none, waiting_empty}
use cotton.UsbHost.Rp2040.Receiving.Store.{filled}
use cotton.UsbHost.Rp2040.Receiving.Invariant.{Staged, staged, IsReceiving, arrived-IsReceiving}
use cotton.UsbHost.Rp2040.Receiving.Step.{
  one_more, one_less, prepare_in-IsReceiving, retire_in-IsReceiving,
}

module _ (size : ℕ) (orig : Bytes) {H W : Type 0} (c : Receiver H) where
  -- The transfer's state, with what the chip has received; at most `k` buffers wait.
  abbrev pub Receiving : ℕ → Inner InPacketiser InDepacketiser × Usb H W → Type 0
  Receiving k (i, s) =
      IsReceiving k size orig i.packetiser i.depacketiser i.in_flight s.dpram (c.received s.regs)
        (c.turn s.regs)

  -- All that came is in the buffer, up to the size of the transfer.
  abbrev pub Stored : Inner InPacketiser InDepacketiser × Usb H W → Type 0
  Stored (i, s) =
      (i.depacketiser.offset ≡ min size (length (c.received s.regs)))
      × (i.depacketiser.buf ≡ filled i.depacketiser.offset (c.received s.regs) orig)

  Receives-Receiving :
      (i : Inner InPacketiser InDepacketiser) (s t : Usb H W)
      → Receives c s t
      → Receiving 2 (i, s)
      → Receiving 2 (i, t)
  Receives-Receiving i s t (idle d e f) h = rw (d, e, f) h
  Receives-Receiving i s t (receive {m = m} xs free l d e f rest) h =
      Receives-Receiving i m t rest (
        rw (d, e, f)
          (arrived-IsReceiving size orig i.packetiser i.depacketiser i.in_flight s.dpram
            (c.received s.regs) (c.turn s.regs) xs free l h))

  prepared-Receiving :
      (i : Inner InPacketiser InDepacketiser) (s : Usb H W) (r : Bool × InPacketiser × Dpram)
      → IsReceiving 2 size orig r.1 i.depacketiser
          (one_more r.0 i.in_flight)
          r.2
          (c.received s.regs)
          (c.turn s.regs)
      → Receiving 2 (prepared Packetiser.In i s r)
  prepared-Receiving i s (true, p, d) h = h
  prepared-Receiving i s (false, p, d) h = h

  prepare_one-Receiving :
      (r : Inner InPacketiser InDepacketiser × Usb H W)
      → Receiving 2 r
      → Holds (Receiving 2) (prepare_one Packetiser.In r)
  unfolding prepare_one
  prepare_one-Receiving (i, s) h = elim (Bool-cases (ltb i.in_flight 2)) [
    | inl q ↦ rw q (
        bind-Holds _ (Receiving 2) (prepare_in i.packetiser s.dpram) _
          (prepare_in-IsReceiving size orig (c.received s.regs) (c.turn s.regs) i.packetiser
            i.depacketiser i.in_flight s.dpram (ground arith) h)
          (prepared-Receiving i s))
    | inr q ↦ rw q h
  ]

  retired-Receiving :
      (k : ℕ) (i : Inner InPacketiser InDepacketiser) (s : Usb H W) (r : Bool × InDepacketiser)
      → IsReceiving k size orig i.packetiser r.1
          (one_less r.0 i.in_flight)
          s.dpram
          (c.received s.regs)
          (c.turn s.regs)
      → Receiving k (retired i r, s)
  retired-Receiving k i s (true, d) h = h
  retired-Receiving k i s (false, d) h = h

  -- With `m` for the bound, which is all that changes.
  relax :
      (k m : ℕ) (r : Inner InPacketiser InDepacketiser × Usb H W)
      → (k ≤ m) ⊎ (r.0.in_flight ≡ 0)
      → Receiving k r
      → Receiving m r
  relax k m (i, s) l h = record {
    shared = h.shared;
    kept = h.kept;
    small = h.small;
    memory = h.memory;
    short_0 = h.short_0;
    short_1 = h.short_1;
    queue = bound h.queue;
  }
    where
      bound :
          Staged k size orig i.packetiser i.depacketiser i.in_flight s.dpram
            (c.received s.regs)
            (c.turn s.regs)
          → Staged m size orig i.packetiser i.depacketiser i.in_flight s.dpram
              (c.received s.regs)
              (c.turn s.regs)
      bound (staged came xs w l' e o g) =
          staged came xs w
            (elim l [ inl k≤m ↦ omega arith | inr z ↦ omega (arith, waiting_none _ _ _ _ _ _ z w) ])
            e o g

  -- A retirement leaves one buffer fewer waiting.
  retire_one-Receiving :
      size ≤ length orig
      → (k : ℕ) (r : Inner InPacketiser InDepacketiser × Usb H W) → Receiving k r
      → Holds (Receiving (k - 1)) (retire_one Depacketiser.In r)
  unfolding retire_one
  retire_one-Receiving room k (i, s) h = elim (Bool-cases (ltb 0 i.in_flight)) [
    | inl q ↦ rw q (
        bind-Holds _ (Receiving (k - 1)) (retire_in i.depacketiser s.dpram) _
          (retire_in-IsReceiving size orig (c.received s.regs) (c.turn s.regs) k i.packetiser
            i.depacketiser i.in_flight s.dpram (ground arith) room h)
          (retired-Receiving (k - 1) i s))
    | inr q ↦ rw q (relax k (k - 1) (i, s) (inr (ground arith)) h)
  ]

  Holds-relax :
      (o : Outcome (Inner InPacketiser InDepacketiser × Usb H W))
      → Holds (Receiving 1) o
      → Holds (Receiving 2) o
  Holds-relax (returns r) h = relax 1 2 r (inl (omega arith)) h
  Holds-relax panics h = h

  -- With nothing waiting, all is stored.
  no_more-Stored :
      (o : Outcome (Inner InPacketiser InDepacketiser × Usb H W))
      → Holds (Receiving 0) o
      → Holds Stored o
  no_more-Stored panics h = h
  no_more-Stored (returns (i, s)) h = done h.queue
    where
      done :
          Staged 0 size orig i.packetiser i.depacketiser i.in_flight s.dpram
            (c.received s.regs)
            (c.turn s.regs)
          → Stored (i, s)
      done (staged came xs w l e o g) =
          let all : c.received s.regs ≡ came =
            e ∙ ap (λ y. came ++ y) (waiting_empty _ _ _ _ _ _ w (omega arith)) ∙ append-nil came in
          rw all (o, g)

  module _ (pac : Pac H W) (task : W) (laws : IsReceiver pac task c)
      (room : size ≤ length orig) where
    pub in_steps : AreSteps pac Packetiser.In Depacketiser.In task (OnlyReceives c) (Receiving 2)
    in_steps = record {
      on_write = λ i s r x h. rw (laws.write_received r x s.regs, laws.write_turn r x s.regs) h;
      on_modify = λ i s r x h. rw (laws.modify_received r x s.regs, laws.modify_turn r x s.regs) h;
      on_register = λ i s h. rw (laws.register_received s.regs, laws.register_turn s.regs) h;
      on_start = λ i s h. h;
      on_prepare = prepare_one-Receiving;
      on_retire = λ r h. Holds-relax _ (retire_one-Receiving room 2 r h);
      on_world = λ i s world k h. Receives-Receiving i s (world s) (k s) h;
    }

    -- The two retirements at the end empty both buffers.
    pub finish-Stored :
        (i : Inner InPacketiser InDepacketiser) (s : Usb H W) (status : ℕ)
        → Receiving 2 (i, s)
        → (poll pac task s).0 ≡ some status
        → pac.flag Field.trans_complete status ≡ true
        → Holds Stored (
            finish pac Packetiser.In Depacketiser.In
              (i, disable_interrupts pac (poll pac task s).1))
    unfolding finish
    finish-Stored i s status h e f =
        let now =
          disable_interrupts_keeps in_steps i (poll pac task s).1 (poll_keeps in_steps i s h) in
        no_more-Stored _ (
          bind-Holds (Receiving 1) (Receiving 0) (retire_one Depacketiser.In _) _
            (retire_one-Receiving room 2 _ now)
            (λ r g.
              retire_one-Receiving room 1 _
                (rw (laws.write_received _ _ r.1.regs, laws.write_turn _ _ r.1.regs) g)))
