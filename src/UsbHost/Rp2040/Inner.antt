-- ===== src/UsbHost/Rp2040/Inner.antt =====
-- cotton-usb-host/src/host/rp2040.rs: `control_transfer_inner`, the packets of one transfer.
pub mod Completes
pub mod InSafe
pub mod Keeps
use cotton.Prelude.{
  ℕ, suc, ◌+◌, ◌-◌, ◌*◌, ◌^◌, Bool, true, false, not, Option, none, some, List, [], ◌∷◌, ◌++◌, ◌==◌,
  ltb, if◌then◌else◌,
}
use cotton.Prelude.Outcome.{Outcome, returns, panics, ◌>>=◌, ◌>>◌}
use cotton.Prelude.Result.{Result, ok, err}
use cotton.UsbHost.HostController.{UsbError}
use cotton.UsbHost.Rp2040.Dpram.{Dpram}
use cotton.UsbHost.Rp2040.Packetiser.{Packetiser}
use cotton.UsbHost.Rp2040.Depacketiser.{Depacketiser}
use cotton.UsbHost.Rp2040.Pac.{
  sie_ctrl, sie_status, inte, buff_status, addr_endp, nak_poll, epx_control, EndpointType, Field,
  Setting, set_bit, clear_bit, bit, bits, kind, all, Pac,
}
use cotton.UsbHost.Rp2040.Polls.{Progress, ready, pending, panicked, Async, at_once}
use cotton.UsbHost.Rp2040.Transfer.{
  Direction, is_in, Usb, Inner, when, errors, no_errors, packets_of, clear_buffers, write, modify,
  error_of, poll,
}

module _ {H W P D : Type 0} (packets : Packetiser P) where
  abbrev pub prepared : Inner P D → Usb H W → Bool × P × Dpram → Inner P D × Usb H W
  prepared i s (true, p, d) =
      (record i { packetiser = p; in_flight = i.in_flight + 1 }, record s { dpram = d })
  prepared i s (false, p, d) = (record i { packetiser = p }, record s { dpram = d })

  -- `if in_flight < 2 && packetiser.prepare(…) { in_flight += 1; }`
  unfoldable pub prepare_one : Inner P D × Usb H W → Outcome (Inner P D × Usb H W)
  prepare_one (i, s) =
      if ltb i.in_flight 2
      then (packets.prepare i.packetiser s.dpram >>= λ r. returns (prepared i s r))
      else returns (i, s)

module _ {P D : Type 0} where
  abbrev pub retired : Inner P D → Bool × D → Inner P D
  retired i (true, d) = record i { depacketiser = d; in_flight = i.in_flight - 1 }
  retired i (false, d) = record i { depacketiser = d }

module _ {H W P D : Type 0} (depackets : Depacketiser D) where
  -- `if in_flight > 0 && depacketiser.retire(…) { in_flight -= 1; }`
  unfoldable pub retire_one : Inner P D × Usb H W → Outcome (Inner P D × Usb H W)
  retire_one (i, s) =
      if ltb 0 i.in_flight
      then (depackets.retire i.depacketiser s.dpram >>= λ r. returns (retired i r, s))
      else returns (i, s)

module _ {H W : Type 0} (pac : Pac H W) where
  -- The registers that are written once, before the loop.
  unfoldable pub start_transfer : ℕ → ℕ → ℕ → Usb H W → Usb H W
  start_transfer address endpoint packets s =
      write pac nak_poll (bits Field.delay_fs 10 ∷ bits Field.delay_ls 16 ∷ []) (
        write pac addr_endp (bits Field.endpoint endpoint ∷ bits Field.address address ∷ []) (
          write pac sie_status (all (2 ^ 32 - 1) ∷ []) (
            clear_buffers (
              write pac epx_control
                (bits Field.buffer_address 384
                    ∷ when (ltb 1 packets)
                        (set_bit Field.double_buffered ∷ set_bit Field.interrupt_per_buff ∷ [])
                  ++ kind (if endpoint == 0 then EndpointType.control else EndpointType.bulk)
                    ∷ set_bit Field.enable
                    ∷ [])
                s))))

  -- The interrupts that the loop waits for.
  abbrev pub enable_interrupts : ℕ → Usb H W → Usb H W
  enable_interrupts packets s =
      modify pac inte (when (ltb 2 packets) (set_bit Field.buff_status_field ∷ []) ++ errors)
        (write pac buff_status (all 3 ∷ []) (write pac sie_status (all (255 * 2 ^ 24) ∷ []) s))

  abbrev pub start : Direction → Bool → Usb H W → Usb H W
  start direction true s = s
  start direction false s = modify pac sie_ctrl (set_bit Field.start_trans ∷ []) (
      modify pac sie_ctrl
        (bit Field.receive_data (is_in direction)
          ∷ bit Field.send_data (not (is_in direction))
          ∷ clear_bit Field.send_setup
          ∷ [])
        s)

  abbrev pub disable_interrupts : Usb H W → Usb H W
  disable_interrupts s = modify pac inte no_errors (write pac buff_status (all 3 ∷ []) s)

module _ {H W P D : Type 0} (pac : Pac H W) (packetiser : Packetiser P)
    (depacketiser : Depacketiser D) where
  -- The top of the loop, down to the await.
  unfoldable pub enter : Direction → ℕ → Inner P D × Usb H W → Outcome (Inner P D × Usb H W)
  enter direction packets r = do
    r ← prepare_one packetiser r
    r ← prepare_one packetiser r
    returns (record r.0 { started = true }, begin r)
    where
      begin : Inner P D × Usb H W → Usb H W
      begin r = start pac direction r.0.started (enable_interrupts pac packets r.1)

  -- The end of the loop's body.
  unfoldable pub retire_both : Inner P D × Usb H W → Outcome (Inner P D × Usb H W)
  retire_both r = retire_one depacketiser r >>= retire_one depacketiser

  -- After `trans_complete`: the code does not count `in_flight` any further at the last `retire`.
  unfoldable pub finish : Inner P D × Usb H W → Outcome (Inner P D × Usb H W)
  finish r = do
    r ← retire_one depacketiser r
    retire_one depacketiser (r.0, write pac sie_status (all (255 * 2 ^ 24) ∷ []) r.1)

  module _ (task : W) (direction : Direction) (packets : ℕ) where
    abbrev pub Run : Type 0
    Run = Progress (Usb H W) (Result UsbError (Unit {0}) × Inner P D)

    abbrev pub resume : (Inner P D × Usb H W → Run) → Outcome (Inner P D × Usb H W) → Run
    resume again (returns r) = again r
    resume again panics = panicked

    abbrev pub completed : List (Usb H W → Usb H W) → Outcome (Inner P D × Usb H W) → Run
    completed later (returns (i, s)) = ready (ok tt, i) later s
    completed later panics = panicked

    abbrev pub failed :
        (Inner P D × Usb H W → Run)
        → List (Usb H W → Usb H W)
        → Inner P D × Usb H W
        → Option UsbError
        → Run
    failed again later r (some e) = ready (err e, r.0) later r.1
    failed again later r none = resume again (retire_both r >>= enter direction packets)

    abbrev pub awaited :
        (Inner P D × Usb H W → Run)
        → List (Usb H W → Usb H W)
        → Inner P D
        → Option ℕ × Usb H W
        → Run
    awaited again later i (none, s) = again (i, s)
    awaited again later i (some status, s) =
        if pac.flag Field.trans_complete status
        then completed later (finish (i, disable_interrupts pac s))
        else failed again later (i, disable_interrupts pac s) (error_of pac status)

    -- The loop, from its await on.
    unfoldable pub await_packets : List (Usb H W → Usb H W) → Inner P D × Usb H W → Run
    await_packets [] (i, s) = pending s
    await_packets (world ∷ later) (i, s) =
        awaited (await_packets later) later i (poll pac task (world s))

  module _ (task : W) where
    abbrev pub run_packets :
        ℕ → ℕ → Direction → P → D → ℕ → Async (Usb H W) (Result UsbError (Unit {0}) × Inner P D)
    run_packets address endpoint direction p d packets later s =
        resume task direction packets (await_packets task direction packets later) (
          enter direction packets (
            record { packetiser = p; depacketiser = d; in_flight = 0; started = false },
            start_transfer pac address endpoint packets s,
          ))

    abbrev pub counted :
        ℕ
        → ℕ
        → Direction
        → P
        → D
        → Outcome ℕ
        → Async (Usb H W) (Result UsbError (Unit {0}) × Inner P D)
    counted address endpoint direction p d (returns packets) later s =
        run_packets address endpoint direction p d packets later s
    counted address endpoint direction p d panics later s = panicked

    unfoldable pub control_transfer_inner :
        ℕ → ℕ → ℕ → Direction → ℕ → P → D → Async (Usb H W) (Result UsbError (Unit {0}) × Inner P D)
    control_transfer_inner address endpoint packet_size direction size p d =
        counted address endpoint direction p d (packets_of size packet_size)
