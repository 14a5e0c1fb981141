-- ===== src/UsbHost/Rp2040/Sending/Steps.antt =====
-- cotton-usb-host/src/host/rp2040.rs: every step of an `Out` transfer keeps its packets in order.
use cotton.Prelude.{
  ℕ, ◌+◌, ◌≤◌, ◌≡◌, sym, ap, subst, ◌∙◌, Bool, true, false, not, Bool-cases, inl, inr, Option, none,
  some, List, [], ◌∷◌, ◌++◌, length, take, ltb, ◌==◌, bit_and, append_assoc, append-nil, arith,
}
use mathlib.Core.Bool.{true≢false}
use cotton.Prelude.Bytes.{Bytes}
use cotton.UsbHost.Rp2040.Dpram.{Dpram, slot}
use cotton.UsbHost.Rp2040.Packetiser
use cotton.UsbHost.Rp2040.Packetiser.{OutPacketiser, prepare_out}
use cotton.UsbHost.Rp2040.Depacketiser
use cotton.UsbHost.Rp2040.Depacketiser.{OutDepacketiser, retire_out}
use cotton.UsbHost.Rp2040.Pac.{Pac, Field, sie_status, intr, pipe_waker}
use cotton.UsbHost.Rp2040.Polls.Ends.{Holds, bind-Holds}
use cotton.UsbHost.Rp2040.Transfer.{Usb, Inner, poll}
use cotton.UsbHost.Rp2040.Inner.{prepare_one, retire_one, prepared}
use cotton.UsbHost.Rp2040.Inner.Keeps.{AreSteps}
use cotton.UsbHost.Rp2040.Inner.Completes.{AreLastSteps}
use cotton.UsbHost.Rp2040.Sending.{
  Packet, bytes_of, Alternates, at, packet, released, Sender, IsSender, Sends, idle, send,
  OnlySends, EndsLast, ends_last,
}
use cotton.UsbHost.Rp2040.Sending.Honest.{IsHonest, IsHonest-kept, IsHonest-idle, IsHonest-send}
use cotton.UsbHost.Rp2040.Sending.Queue.{Waiting-Left, Left, left}
use cotton.UsbHost.Rp2040.Sending.Invariant.{
  pid_after, Marked, Marked-over, Queued, queued, IsOver, IsSending,
}
use cotton.UsbHost.Rp2040.Sending.Prepare.{prepare_out-IsSending}

IsNone : Option ℕ → Type 0
IsNone none = Unit
IsNone (some n) = ⊥

value : Option ℕ → ℕ
value none = 0
value (some n) = n

module _ (size : ℕ) (buf : Bytes) (first : Bool) where
  -- The packet at the head of the queue goes out.
  leave-Queued :
      {over : Type 0} (prep offset : ℕ) (d : Dpram) (sent : List Packet) (turn : Bool)
      → (at d turn).available ≡ true
      → Queued over buf first prep offset d sent turn
      → Queued over buf first prep offset (released turn d) (sent ++ packet d turn ∷ []) (not turn)
  leave-Queued {over = over} prep offset d sent turn free
        (queued ps w same alternate after marked) =
      gone (Waiting-Left d turn prep ps free w)
    where
      gone :
          Left d turn prep ps
          → Queued over buf first prep offset
              (released turn d)
              (sent ++ packet d turn ∷ [])
              (not turn)
      gone (left {rest = rest} e w') =
          let same_list : (sent ++ packet d turn ∷ []) ++ rest ≡ sent ++ ps =
            append_assoc sent (packet d turn ∷ []) rest ∙ ap (λ l. sent ++ l) (sym e) in
          queued rest w' (ap bytes_of same_list ∙ same)
            (subst (Alternates first) (sym same_list) alternate)
            (ap (pid_after first) same_list ∙ after) (subst (Marked _) (sym same_list) marked)

  leave-IsSending :
      (p : OutPacketiser) (d : Dpram) (sent : List Packet) (turn : Bool)
      → (at d turn).available ≡ true
      → IsSending size buf first p d sent turn
      → IsSending size buf first p (released turn d) (sent ++ packet d turn ∷ []) (not turn)
  leave-IsSending p d sent turn free h = record {
    source = h.source;
    pid = h.pid;
    shared = h.shared;
    small = h.small;
    positive = h.positive;
    need = h.need;
    memory = h.memory;
    short_0 = short_0 turn;
    short_1 = short_1 turn;
    queue = leave-Queued p.next_prep p.offset d sent turn free h.queue;
  }
    where
      short_0 : (turn : Bool) → ((released turn d).controls 0).slot_0.length ≤ 64
      short_0 false = h.short_0
      short_0 true = h.short_0

      short_1 : (turn : Bool) → ((released turn d).controls 0).slot_1.length ≤ 64
      short_1 false = h.short_1
      short_1 true = h.short_1

  -- After the packet marked as the last there is nothing to send.
  not-EndsLast :
      (p : OutPacketiser) (d : Dpram) (sent : List Packet) (turn : Bool)
      → (at d turn).available ≡ true
      → IsSending size buf first p d sent turn
      → ¬ EndsLast sent
  not-EndsLast p d sent turn free h ends = waiting h.queue ends
    where
      waiting : Queued (IsOver p) buf first p.next_prep p.offset d sent turn → EndsLast sent → ⊥
      waiting (queued ps w same alternate after marked) (ends_last before q e l) =
          let gone =
            Marked-over before ps q l (subst (λ x. Marked (IsOver p) (x ++ ps)) e marked) in
          nothing (Waiting-Left d turn p.next_prep ps free w) gone.0
        where
          nothing : Left d turn p.next_prep ps → ps ≡ [] → ⊥
          nothing (left e w') z = ground (arith, ap length e, ap length z)

  module _ {H W : Type 0} (c : Sender H) where
    -- The transfer's state, with what the chip has sent and reports.
    abbrev pub Sending : Inner OutPacketiser OutDepacketiser × Usb H W → Type 0
    Sending (i, s) =
        IsSending size buf first i.packetiser s.dpram (c.sent s.regs) (c.turn s.regs)
        × IsHonest c s.regs

    -- All of the data are out.
    abbrev pub Sent : Inner OutPacketiser OutDepacketiser × Usb H W → Type 0
    Sent (i, s) = (bytes_of (c.sent s.regs) ≡ take size buf) × Alternates first (c.sent s.regs)

    Sends-Sending :
        (i : Inner OutPacketiser OutDepacketiser) (s t : Usb H W)
        → Sends c s t
        → Sending (i, s)
        → Sending (i, t)
    Sends-Sending i s t (idle d e f report) h =
        (rw (d, e, f) h.0, IsHonest-idle c s.regs t.regs e report h.1)
    Sends-Sending i s t (send {m = m} free d e f report rest) h = Sends-Sending i m t rest (
      rw (d, e, f) (leave-IsSending i.packetiser s.dpram (c.sent s.regs) (c.turn s.regs) free h.0),
      IsHonest-send c s.regs m.regs
          (not-EndsLast i.packetiser s.dpram (c.sent s.regs) (c.turn s.regs) free h.0) report h.1,
    )

    prepared-Sending :
        (i : Inner OutPacketiser OutDepacketiser) (s : Usb H W) (r : Bool × OutPacketiser × Dpram)
        → IsHonest c s.regs
        → IsSending size buf first r.1 r.2 (c.sent s.regs) (c.turn s.regs)
        → Sending (prepared Packetiser.Out i s r)
    prepared-Sending i s (true, p, d) honest h = (h, honest)
    prepared-Sending i s (false, p, d) honest h = (h, honest)

    prepare_one-Sending :
        size ≤ length buf
        → (r : Inner OutPacketiser OutDepacketiser × Usb H W) → Sending r
        → Holds Sending (prepare_one Packetiser.Out r)
    unfolding prepare_one
    prepare_one-Sending room (i, s) h = elim (Bool-cases (ltb i.in_flight 2)) [
      | inl q ↦ rw q (
          bind-Holds _ Sending (prepare_out i.packetiser s.dpram) _
            (prepare_out-IsSending size buf first (c.sent s.regs) (c.turn s.regs) room i.packetiser
              s.dpram h.0)
            (λ r g. prepared-Sending i s r h.1 g))
      | inr q ↦ rw q h
    ]

    -- A retirement sends nothing.
    retire_one-Kept :
        (I : OutPacketiser → Usb H W → Type 0) (r : Inner OutPacketiser OutDepacketiser × Usb H W)
        → I r.0.packetiser r.1
        → Holds (λ x. I x.0.packetiser x.1) (retire_one Depacketiser.Out r)
    unfolding retire_one retire_out
    retire_one-Kept I (i, s) h = elim (Bool-cases (ltb 0 i.in_flight)) [
      | inl q ↦ elim (Bool-cases (slot i.depacketiser.next_retire (s.dpram.controls 0)).full) [
        | inl f ↦ rw (q, f) h
        | inr f ↦ rw (q, f) h
      ]
      | inr q ↦ rw q h
    ]

    module _ (pac : Pac H W) (task : W) (laws : IsSender pac task c) where
      -- What a poll that is ready returns, and that it sends nothing.
      poll-reads :
          (s : Usb H W) (status : ℕ)
          → (poll pac task s).0 ≡ some status
          → (status ≡ pac.read sie_status (pac.register (pipe_waker 0) task s.regs))
            × (c.sent (poll pac task s).1.regs ≡ c.sent s.regs)
      unfolding poll IsNone value
      poll-reads s status e =
          elim (Bool-cases
            (bit_and (pac.read intr (pac.register (pipe_waker 0) task s.regs)) 1112 == 0)) [
              | inl q ↦ let e' = rw q at e in absurd (subst IsNone e' tt)
              | inr q ↦
                  let e' = rw q at e in
                  (sym (ap value e'), rw q (laws.write_sent _ _ _ ∙ laws.register_sent s.regs))
            ]

      pub out_steps :
          size ≤ length buf
          → AreSteps pac Packetiser.Out Depacketiser.Out task (OnlySends c) Sending
      out_steps room = record {
        on_write = λ i s r x h. (
          rw (laws.write_sent r x s.regs, laws.write_turn r x s.regs) h.0,
          IsHonest-kept c s.regs _ (laws.write_sent r x s.regs) (laws.write_complete r x s.regs)
              h.1,
        );
        on_modify = λ i s r x h. (
          rw (laws.modify_sent r x s.regs, laws.modify_turn r x s.regs) h.0,
          IsHonest-kept c s.regs _ (laws.modify_sent r x s.regs) (laws.modify_complete r x s.regs)
              h.1,
        );
        on_register = λ i s h. (
          rw (laws.register_sent s.regs, laws.register_turn s.regs) h.0,
          IsHonest-kept c s.regs _ (laws.register_sent s.regs) (laws.register_complete s.regs) h.1,
        );
        on_start = λ i s h. h;
        on_prepare = prepare_one-Sending room;
        on_retire = λ r h.
            retire_one-Kept
              (λ p s.
                IsSending size buf first p s.dpram (c.sent s.regs) (c.turn s.regs)
                × IsHonest c s.regs)
              r h;
        on_world = λ i s world k h. Sends-Sending i s (world s) (k s) h;
      }

      -- A reading of `trans_complete` finds all of the data sent.
      pub completed_Sent :
          (i : Inner OutPacketiser OutDepacketiser) (s : Usb H W) (status : ℕ)
          → size ≤ length buf
          → Sending (i, s)
          → (poll pac task s).0 ≡ some status
          → pac.flag Field.trans_complete status ≡ true
          → Sent (i, (poll pac task s).1)
      completed_Sent i s status room h e f =
          let (same, kept) = poll-reads s status e in
          let flag = subst (λ k. pac.flag Field.trans_complete k ≡ true) same f in
          let complete = laws.register_complete s.regs (laws.reading _ flag) in
          rw kept (all_sent h.0.shared h.0.queue (ended complete h.1))
        where
          ended : c.complete s.regs ≡ true → IsHonest c s.regs → EndsLast (c.sent s.regs)
          ended complete (inl none_yet) = absurd (true≢false (sym complete ∙ none_yet))
          ended complete (inr ends) = ends

          all_sent :
              i.packetiser.offset + i.packetiser.remain ≡ size
              → Queued
                  (IsOver i.packetiser)
                  buf
                  first
                  i.packetiser.next_prep
                  i.packetiser.offset
                  s.dpram
                  (c.sent s.regs)
                  (c.turn s.regs)
              → EndsLast (c.sent s.regs)
              → Sent (i, s)
          all_sent shared (queued ps w same alternate after marked) (ends_last before p e l) =
              let (gone, over) =
                Marked-over before ps p l
                  (subst (λ x. Marked (IsOver i.packetiser) (x ++ ps)) e marked) in
              let whole : c.sent s.regs ++ ps ≡ c.sent s.regs =
                ap (λ x. c.sent s.regs ++ x) gone ∙ append-nil (c.sent s.regs) in
              let all : i.packetiser.offset ≡ size = omega (arith, over.0) in
              (
                ap bytes_of (sym whole) ∙ same ∙ ap (λ k. take k buf) all,
                subst (Alternates first) whole alternate,
              )

      pub out_last_steps : AreLastSteps pac Depacketiser.Out Sent
      out_last_steps = record {
        on_write = λ i s r x h. rw (laws.write_sent r x s.regs) h;
        on_modify = λ i s r x h. rw (laws.modify_sent r x s.regs) h;
        on_retire = λ r h.
            retire_one-Kept
              (λ p s. (bytes_of (c.sent s.regs) ≡ take size buf) × Alternates first (c.sent s.regs))
              r h;
      }
