-- ===== src/UsbHost/Rp2040/Transfer.antt =====
-- cotton-usb-host/src/host/rp2040.rs: one transaction of the shared endpoint, a SETUP packet or the
-- packets of a transfer. `task` is the waker of the context that polls; traces are left out.
use cotton.Prelude.{
  ℕ, zero, suc, ◌+◌, ◌-◌, ◌*◌, ◌/◌, ◌^◌, Bool, true, false, Option, none, some, List, [], ◌∷◌, ◌==◌,
  bit_and, if◌then◌else◌,
}
use cotton.Prelude.Outcome.{Outcome, returns, panics}
use cotton.Prelude.Result.{Result, ok, err}
use cotton.UsbHost.HostController.{UsbError}
use cotton.UsbHost.Pool.{Pool}
use cotton.UsbHost.Wire.Descriptors.{SetupPacket}
use cotton.UsbHost.Rp2040.Dpram.{Dpram, no_buffers, put_control}
use cotton.UsbHost.Rp2040.Pac.{
  Register, sie_ctrl, sie_status, inte, intr, addr_endp, epx_control, setup_packet_low,
  setup_packet_high, Field, Setting, set_bit, clear_bit, bits, all, pipe_waker, Pac,
}
use cotton.UsbHost.Rp2040.Polls.{Progress, ready, pending, Async}

pub data Direction : Type 0 where
  dir_in dir_out : Direction

-- `Rp2040HostController` with its `UsbStatics`: the chip's registers, the shared memory, the pipes.
pub record Usb (H W : Type 0) : Type 0 where
  pub regs : H
  pub dpram : Dpram
  pub control_pipes : Pool W
  pub bulk_pipes : Pool W

-- The locals of `control_transfer_inner`.
pub record Inner (P D : Type 0) : Type 0 where
  pub packetiser : P
  pub depacketiser : D
  pub in_flight : ℕ
  pub started : Bool

abbrev pub is_in : Direction → Bool
is_in dir_in = true
is_in dir_out = false

-- `if b { … }` around calls on a writer.
abbrev pub when : Bool → List Setting → List Setting
when true settings = settings
when false settings = []

abbrev pub errors : List Setting
errors =
    set_bit Field.trans_complete
    ∷ set_bit Field.error_data_seq
    ∷ set_bit Field.stall
    ∷ set_bit Field.error_rx_timeout
    ∷ set_bit Field.error_rx_overflow
    ∷ set_bit Field.error_bit_stuff
    ∷ set_bit Field.error_crc
    ∷ []

abbrev pub no_errors : List Setting
no_errors =
    clear_bit Field.trans_complete
    ∷ clear_bit Field.error_data_seq
    ∷ clear_bit Field.stall
    ∷ clear_bit Field.error_rx_timeout
    ∷ clear_bit Field.error_rx_overflow
    ∷ clear_bit Field.error_bit_stuff
    ∷ clear_bit Field.error_crc
    ∷ []

-- `size / packet_size + 1`; `/` panics at 0.
unfoldable pub packets_of : ℕ → ℕ → Outcome ℕ
packets_of size zero = panics
packets_of size (suc n) = returns (size / suc n + 1)

module _ {H W : Type 0} where
  abbrev pub on_regs : (H → H) → Usb H W → Usb H W
  on_regs f s = record s { regs = f s.regs }

  abbrev pub clear_buffers : Usb H W → Usb H W
  clear_buffers s = record s { dpram = put_control 0 no_buffers s.dpram }

module _ {H W : Type 0} (pac : Pac H W) where
  abbrev pub write : Register → List Setting → Usb H W → Usb H W
  write r settings = on_regs (pac.write r settings)

  abbrev pub modify : Register → List Setting → Usb H W → Usb H W
  modify r settings = on_regs (pac.modify r settings)

  -- The error that a status shows, in the order of the code.
  unfoldable pub error_of : ℕ → Option UsbError
  error_of status =
      if pac.flag Field.data_seq_error status
      then some UsbError.data_seq_error
      else if pac.flag Field.stall_rec status
      then some UsbError.stall
      else if pac.flag Field.rx_overflow status
      then some UsbError.overflow
      else if pac.flag Field.rx_timeout status
      then some UsbError.timeout
      else if pac.flag Field.bit_stuff_error status
      then some UsbError.bit_stuff_error
      else if pac.flag Field.crc_error status
      then some UsbError.crc_error
      else none

  module _ (task : W) where
    -- `Rp2040ControlEndpoint::poll`; the numbers are 0x458 and 0xFF08_0000.
    unfoldable pub poll : Usb H W → Option ℕ × Usb H W
    poll s =
        if bit_and (pac.read intr (registered s).regs) 1112 == 0
        then (
          none,
          modify inte
              (set_bit Field.stall
                ∷ set_bit Field.error_rx_timeout
                ∷ set_bit Field.trans_complete
                ∷ [])
              polled,
        )
        else (some (pac.read sie_status (registered s).regs), polled)
      where
        registered : Usb H W → Usb H W
        registered = on_regs (pac.register (pipe_waker 0) task)

        polled : Usb H W
        polled = write sie_status (all (255 * 2 ^ 24 + 8 * 2 ^ 16) ∷ []) (registered s)

    -- The loop of `send_setup`, from its await on.
    abbrev pub setup_error :
        (Usb H W → Progress (Usb H W) (Result UsbError (Unit {0})))
        → List (Usb H W → Usb H W)
        → Usb H W
        → Option UsbError
        → Progress (Usb H W) (Result UsbError (Unit {0}))
    setup_error again later s (some e) = ready (err e) later s
    setup_error again later s none = again s

    abbrev pub setup_polled :
        (Usb H W → Progress (Usb H W) (Result UsbError (Unit {0})))
        → List (Usb H W → Usb H W)
        → Option ℕ × Usb H W
        → Progress (Usb H W) (Result UsbError (Unit {0}))
    setup_polled again later (none, s) = again s
    setup_polled again later (some status, s) =
        if pac.flag Field.trans_complete status
        then ready (ok tt) later s
        else setup_error again later s (error_of status)

    unfoldable pub await_setup : Async (Usb H W) (Result UsbError (Unit {0}))
    await_setup [] s = pending s
    await_setup (world ∷ later) s = setup_polled (await_setup later) later (poll (world s))

    unfoldable pub start_setup : ℕ → SetupPacket → Usb H W → Usb H W
    start_setup address setup s = modify sie_ctrl (set_bit Field.start_trans ∷ []) (
        modify sie_ctrl
          (clear_bit Field.receive_data ∷ clear_bit Field.send_data ∷ set_bit Field.send_setup ∷ [])
          (write addr_endp (bits Field.endpoint 0 ∷ bits Field.address address ∷ []) (
            write sie_status (all (2 ^ 32 - 1) ∷ []) (
              write setup_packet_high
                (bits Field.w_length setup.w_length ∷ bits Field.w_index setup.w_index ∷ [])
                (write setup_packet_low
                  (bits Field.bm_request_type setup.bm_request_type
                    ∷ bits Field.b_request setup.b_request
                    ∷ bits Field.w_value setup.w_value
                    ∷ [])
                  (clear_buffers (
                    write epx_control
                      (bits Field.buffer_address 384
                        ∷ clear_bit Field.interrupt_per_buff
                        ∷ clear_bit Field.enable
                        ∷ [])
                      s)))))))

    unfoldable pub send_setup : ℕ → SetupPacket → Async (Usb H W) (Result UsbError (Unit {0}))
    send_setup address setup later s = await_setup later (start_setup address setup s)
