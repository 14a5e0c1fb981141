-- ===== src/UsbHost/Rp2040/Tests.antt =====
-- The RP2040 controller on small inputs, with a chip that sends or receives one packet per poll.
use cotton.Prelude.{
  ◌↔◌, bit_and, leb, ◌&&◌, ℕ, ◌≡◌, refl, ◌∙◌, Bool, true, false, not, Bool-cases, inl, inr, Option,
  none, some, List, [], ◌∷◌, ◌++◌, replicate, length-replicate, ◌==◌, if◌then◌else◌, arith,
}
use mathlib.Core.List.{Memᴰ}
use cotton.Prelude.Result.{ok}
use cotton.UsbHost.HostController.{fixed_size, variable_size}
use cotton.UsbHost.Pool.{Pool}
use cotton.UsbHost.Rp2040.Dpram.{no_buffers, slot, put_control, put_slot, store}
use cotton.UsbHost.Rp2040.Dpram.Laws.{IsDpram, length-store}
use cotton.UsbHost.Rp2040.Packetiser.{
  as_needed, new_out, needs_zero_size_packet, next_packet, prepare_in, prepare_out,
}
use cotton.UsbHost.Rp2040.Packetiser.Laws.{IsCut, packets, packets-IsCut}
use cotton.UsbHost.Rp2040.Pac.{
  Pac, Register, sie_status, ints, intr, buff_status, Field, Setting, all, pipe_waker,
}
use cotton.UsbHost.Rp2040.Polls.{Progress, ready, pending, panicked}
use cotton.UsbHost.Rp2040.Inner.{
  control_transfer_inner, start_transfer, enter, prepare_one, retire_one, retire_both, finish,
  await_packets,
}
use cotton.UsbHost.Rp2040.Depacketiser
use cotton.UsbHost.Rp2040.Depacketiser.{retire_in, retire_out}
use cotton.UsbHost.Rp2040.Packetiser
use cotton.UsbHost.Rp2040.Polls.Ends.{Ends, Holds}
use cotton.UsbHost.Rp2040.Transfer.{Usb, packets_of, poll, error_of}
use cotton.UsbHost.Rp2040.Sending.{
  bytes_of, Packet, at, packet, released, Sender, IsSender, ends_last, idle, send, OnlySends,
  IsReport, still, at_end,
}
use cotton.UsbHost.Rp2040.Controller.{control_transfer_in, control_transfer_out, write_bulk}
use cotton.UsbHost.Rp2040.Controller.Bounds.{KeepsDpram, IsRead, control_transfer_in-IsRead}
use cotton.UsbHost.Rp2040.Controller.Reception.{IsStored, IsReady, control_transfer_in-IsStored}
use cotton.UsbHost.Rp2040.Receiving.{Receiver, IsReceiver, Receives, OnlyReceives, arrived}
use cotton.UsbHost.Rp2040.Sending.Invariant.{bytes_of-snoc}
use cotton.UsbHost.Rp2040.Sending.Starting.{IsIdle}
use cotton.UsbHost.Rp2040.Controller.Delivery.{
  IsDelivered, control_transfer_out-IsDelivered, write_bulk-IsDelivered,
}
use cotton.UsbHost.Rp2040.Controller.ZeroLength.{write_bulk-panics}
use cotton.UsbHost.Rp2040.Interrupts.{on_irq}
use cotton.UsbHost.Rp2040.Interrupts.Waking.{IsAbout, on_irq-mem}

-- What a chip has sent, whether the second buffer is next, and whether it reports completion. Pipe 3
-- waits for the interrupt handler.
abbrev Chip : Type 0
Chip = List Packet × Bool × Bool

abbrev is_complete : Field → ℕ → Bool
is_complete Field.trans_complete n = bit_and n 0x4_0000 == 0x4_0000
is_complete Field.buff_status_field n = true
is_complete _ n = false

abbrev read : Register → Chip → ℕ
read sie_status h = if h.2 then 0x4_0000 else 0
read intr h = if h.2 then 24 else 16
read buff_status h = 64
read _ h = 0

-- A one that is written to the bit of `trans_complete` clears it.
abbrev has_complete : List Setting → Bool
has_complete (all n ∷ []) = bit_and n 0x4_0000 == 0x4_0000
has_complete _ = false

abbrev is_status : Register → Bool
is_status sie_status = true
is_status _ = false

abbrev write : Register → List Setting → Chip → Chip
write r x h = (h.0, h.1, (if is_status r && has_complete x then false else h.2))

abbrev chip : Pac Chip ℕ
chip = record {
  read = read;
  write = write;
  modify = λ r x h. h;
  flag = is_complete;
  field = λ f n. 0;
  unpend_and_unmask = λ h. h;
  register = λ w t h. h;
}

abbrev sender : Sender Chip
sender = record { sent = λ h. h.0; turn = λ h. h.1; complete = λ h. h.2 }

reading_lem : (h : Chip) → is_complete Field.trans_complete (read sie_status h) ≡ true → h.2 ≡ true
reading_lem (ps, turn, true) e = refl
reading_lem (ps, turn, false) e = e

chip-IsSender : IsSender chip 7 sender
chip-IsSender = record {
  write_sent = λ r x h. refl;
  write_turn = λ r x h. refl;
  modify_sent = λ r x h. refl;
  modify_turn = λ r x h. refl;
  register_sent = λ h. refl;
  register_turn = λ h. refl;
  reading = reading_lem;
  write_complete = λ r x h e. ground (arith, e);
  modify_complete = λ r x h e. e;
  register_complete = λ h e. e;
  cleared = λ h. refl;
}

-- One packet goes out, if one is there.
abbrev sent : Usb Chip ℕ → Usb Chip ℕ
sent s = record s {
  regs = (
    s.regs.0 ++ packet s.dpram s.regs.1 ∷ [],
    not s.regs.1,
    (if (packet s.dpram s.regs.1).1 then true else s.regs.2),
  );
  dpram = released s.regs.1 s.dpram;
}

abbrev send_one : Usb Chip ℕ → Usb Chip ℕ
send_one s = if (at s.dpram s.regs.1).available then sent s else s

-- The packet marked as the last makes the chip report completion.
sent-IsReport : (s : Usb Chip ℕ) → IsReport s.regs.2 (sent s).regs.2 (sent s).regs.0
sent-IsReport s = elim (Bool-cases (packet s.dpram s.regs.1).1) [
  | inl q ↦ at_end (ends_last s.regs.0 (packet s.dpram s.regs.1) refl q)
  | inr q ↦ still (rw q refl)
]

send_one-OnlySends : OnlySends sender send_one
send_one-OnlySends s = elim (Bool-cases (at s.dpram s.regs.1).available) [
  | inl q ↦
      rw q (send {m = sent s} q refl refl refl (sent-IsReport s) (idle refl refl refl (still refl)))
  | inr q ↦ rw q (idle refl refl refl (still refl))
]

abbrev no_pool : Pool ℕ
no_pool = record { total = 1; allocated = record { bits = 0 }; waker = none }

-- A chip that still reports the completion of an earlier transfer.
abbrev idle_chip : Usb Chip ℕ
idle_chip = record {
  regs = ([], false, true);
  dpram = record { controls = λ n. no_buffers; memory = replicate 4096 0 };
  control_pipes = no_pool;
  bulk_pipes = no_pool;
}

idle_chip-IsIdle : IsIdle sender idle_chip
idle_chip-IsIdle = record { memory = length-replicate {A = ℕ} 4096 0; nothing = refl; turn = refl }

abbrev polls : List (Usb Chip ℕ → Usb Chip ℕ)
polls = send_one ∷ send_one ∷ send_one ∷ send_one ∷ []

control_transfer_out-IsDelivered_example :
    Ends
      (OnlySends sender)
      (λ r t. IsDelivered 5 (1 ∷ 2 ∷ 3 ∷ 4 ∷ 5 ∷ 6 ∷ []) true t.regs.0 r)
      (control_transfer_out chip 7 1 2 5 (1 ∷ 2 ∷ 3 ∷ 4 ∷ 5 ∷ 6 ∷ []) polls idle_chip)
control_transfer_out-IsDelivered_example =
    control_transfer_out-IsDelivered chip 7 sender 1 2 5 (1 ∷ 2 ∷ 3 ∷ 4 ∷ 5 ∷ 6 ∷ []) polls
      idle_chip chip-IsSender (omega arith) (omega arith) (omega arith) (omega arith)
      (send_one-OnlySends, (send_one-OnlySends, (send_one-OnlySends, (send_one-OnlySends, tt))))
      idle_chip-IsIdle

write_bulk-IsDelivered_example :
    Ends
      (OnlySends sender)
      (λ r t. IsDelivered 4 (1 ∷ 2 ∷ 3 ∷ 4 ∷ []) false t.regs.0 r.result)
      (write_bulk chip 7 1 2 2 (1 ∷ 2 ∷ 3 ∷ 4 ∷ []) fixed_size false polls idle_chip)
write_bulk-IsDelivered_example =
    write_bulk-IsDelivered chip 7 sender 1 2 2 (1 ∷ 2 ∷ 3 ∷ 4 ∷ []) false polls idle_chip
      chip-IsSender (omega arith) (omega arith)
      (send_one-OnlySends, (send_one-OnlySends, (send_one-OnlySends, (send_one-OnlySends, tt))))
      idle_chip-IsIdle

-- What such a transfer is ready with, and the packets that it sent.
abbrev outcome : {A : Type 0} → Progress (Usb Chip ℕ) A → Option (A × List Packet)
outcome (ready a later s) = some (a, s.regs.0)
outcome (pending s) = none
outcome panicked = none

sends_three_packets :
    outcome (control_transfer_out chip 7 1 2 5 (1 ∷ 2 ∷ 3 ∷ 4 ∷ 5 ∷ 6 ∷ []) polls idle_chip)
    ≡ some
        (ok 6, (true, false, 1 ∷ 2 ∷ []) ∷ (false, false, 3 ∷ 4 ∷ []) ∷ (true, true, 5 ∷ []) ∷ [])
unfolding control_transfer_out new_out needs_zero_size_packet next_packet prepare_out
    Depacketiser.new_out retire_out control_transfer_inner start_transfer packets_of enter
    prepare_one retire_one retire_both finish await_packets poll error_of
sends_three_packets = refl

write_bulk-panics_example :
    write_bulk chip 7 1 2 2 (1 ∷ 2 ∷ []) variable_size false polls idle_chip ≡ panicked
write_bulk-panics_example =
    write_bulk-panics chip 7 1 2 2 (1 ∷ 2 ∷ []) false polls idle_chip refl (omega arith)
      (omega arith)

-- Three bytes arrive in the first buffer, and the transfer is complete.
abbrev receive : Usb Chip ℕ → Usb Chip ℕ
receive s = record s {
  regs = ((true, true, []) ∷ [], true, true);
  dpram =
      put_control 0
        (put_slot 0
          (record (slot 0 (s.dpram.controls 0)) { full = true; available = false; length = 3 })
          (s.dpram.controls 0))
        (record s.dpram { memory = store 384 (7 ∷ 8 ∷ 9 ∷ []) s.dpram.memory });
}

receive-KeepsDpram : KeepsDpram receive
receive-KeepsDpram s h = record {
  size = length-store 384 (7 ∷ 8 ∷ 9 ∷ []) s.dpram.memory (omega (arith, h.size)) ∙ h.size;
  short_0 = omega arith;
  short_1 = h.short_1;
}

idle_chip-IsDpram : IsDpram idle_chip.dpram
idle_chip-IsDpram = record {
  size = length-replicate {A = ℕ} 4096 0;
  short_0 = omega arith;
  short_1 = omega arith;
}

-- The same chip as a receiver.
abbrev receiver : Receiver Chip
receiver = record { received = λ h. bytes_of h.0; turn = λ h. h.1 }

chip-IsReceiver : IsReceiver chip 7 receiver
chip-IsReceiver = record {
  write_received = λ r x h. refl;
  write_turn = λ r x h. refl;
  modify_received = λ r x h. refl;
  modify_turn = λ r x h. refl;
  register_received = λ h. refl;
  register_turn = λ h. refl;
}

-- Two bytes come in, if a buffer is there, and the transfer is complete.
abbrev came : Usb Chip ℕ → Usb Chip ℕ
came s = record s {
  regs = (s.regs.0 ++ (true, true, 7 ∷ 8 ∷ []) ∷ [], not s.regs.1, true);
  dpram = arrived s.regs.1 (7 ∷ 8 ∷ []) s.dpram;
}

abbrev receive_one : Usb Chip ℕ → Usb Chip ℕ
receive_one s =
    if (at s.dpram s.regs.1).available && leb 2 (at s.dpram s.regs.1).length then came s else s

receive_one-OnlyReceives : OnlyReceives receiver receive_one
receive_one-OnlyReceives s = elim (Bool-cases (at s.dpram s.regs.1).available) [
  | inl q ↦ elim (Bool-cases (leb 2 (at s.dpram s.regs.1).length)) [
    | inl q' ↦
        rw (q, q')
          (Receives.receive {m = came s} (7 ∷ 8 ∷ []) q (ground arith) refl
            (bytes_of-snoc s.regs.0 (true, true, 7 ∷ 8 ∷ [])) refl (Receives.idle refl refl refl))
    | inr q' ↦ rw (q, q') (Receives.idle refl refl refl)
  ]
  | inr q ↦ rw q (Receives.idle refl refl refl)
]

idle_chip-IsReady : IsReady receiver idle_chip
idle_chip-IsReady = record { memory = length-replicate {A = ℕ} 4096 0; nothing = refl; turn = refl }

control_transfer_in-IsStored_example :
    Ends
      (OnlyReceives receiver)
      (λ r t. IsStored 4 (replicate 6 0) (bytes_of t.regs.0) r.0 r.1)
      (control_transfer_in chip 7 1 8 4 (replicate 6 0) (receive_one ∷ []) idle_chip)
control_transfer_in-IsStored_example =
    control_transfer_in-IsStored chip 7 receiver 1 8 4 (replicate 6 0) (receive_one ∷ []) idle_chip
      chip-IsReceiver (omega arith) (omega arith) (omega arith) (omega arith)
      (receive_one-OnlyReceives, tt) idle_chip-IsReady

control_transfer_in-IsRead_example :
    Ends KeepsDpram
      (λ r t. IsRead 4 6 r.0 r.1)
      (control_transfer_in chip 7 1 8 4 (replicate 6 0) (receive ∷ []) idle_chip)
control_transfer_in-IsRead_example =
    control_transfer_in-IsRead chip 7 1 8 4 (replicate 6 0) (receive ∷ []) idle_chip (omega arith)
      (omega arith) (receive-KeepsDpram, tt) idle_chip-IsDpram

receives_three_bytes :
    outcome (control_transfer_in chip 7 1 8 4 (replicate 6 0) (receive ∷ []) idle_chip)
    ≡ some ((ok 3, 7 ∷ 8 ∷ 9 ∷ 0 ∷ 0 ∷ 0 ∷ []), (true, true, []) ∷ [])
unfolding control_transfer_in Packetiser.new_in needs_zero_size_packet next_packet prepare_in
    Depacketiser.new_in retire_in control_transfer_inner start_transfer packets_of enter prepare_one
    retire_one retire_both finish await_packets poll error_of
receives_three_bytes = refl

packets-IsCut_example :
    Holds
      (λ need. IsCut 64 true 128 (packets 128 64 need))
      (needs_zero_size_packet as_needed 128 64)
packets-IsCut_example = packets-IsCut 128 64 as_needed (omega arith)

on_irq-mem_example :
    Memᴰ (pipe_waker 3) (on_irq chip idle_chip).0
    ↔ IsAbout
        (chip.flag Field.buff_status_field (chip.read ints idle_chip.regs))
        (chip.read ints idle_chip.regs)
        (chip.read buff_status idle_chip.regs)
        3
on_irq-mem_example = on_irq-mem chip idle_chip 3
