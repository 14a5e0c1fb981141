-- ===== src/UsbHost/Rp2040/Interrupts.antt =====
-- cotton-usb-host/src/host/rp2040.rs: the interrupt handler, device detection and interrupt pipes.
pub mod Waking
use cotton.Prelude.{
  ℕ, zero, suc, ◌+◌, ◌-◌, ◌*◌, ◌%◌, ◌^◌, Bool, true, false, not, ◌&&◌, Option, none, some, List, [],
  ◌∷◌, ◌++◌, replicate, min, bit_and, bit_or, ◌==◌, if◌then◌else◌,
}
use cotton.Prelude.Bytes.{Bytes}
use cotton.Prelude.Outcome.{Outcome, returns, panics, ◌>>=◌}
use cotton.Prelude.Result.{Result, ok, err}
use cotton.UsbHost.HostController.{
  UsbError, too_many_devices, UsbSpeed, low1_5, full12, DeviceStatus, absent, present,
  InterruptPacket,
}
use cotton.UsbHost.Rp2040.Dpram.{Slot, no_slot, no_buffers, Dpram, put_control, load, store}
use cotton.UsbHost.Rp2040.Pac.{
  sie_status, inte, ints, buff_status, int_ep_ctrl, ep_status_stall_nak, host_addr_endp, ep_control,
  Field, set_bit, clear_bit, bits, kind, all, interrupt, Waker, device_waker, pipe_waker, Pac,
}
use cotton.UsbHost.Rp2040.Polls
use cotton.UsbHost.Rp2040.Polls.{Async, sync}
use cotton.UsbHost.Rp2040.Transfer.{Usb, write, modify, on_regs}
use cotton.UsbHost.Rp2040.Pipes.{Pipe, alloc_pipe, try_alloc_pipe}

-- `for i in 0..15` of the handler, with `n` rounds left, at `i`.
unfoldable pub woken_pipes : ℕ → ℕ → ℕ → List Waker
woken_pipes zero i bs = []
woken_pipes (suc n) i bs =
    let rest = woken_pipes n (suc i) bs in
    if bit_and bs (3 * 2 ^ (i * 2)) == 0 then rest else pipe_waker i ∷ rest

abbrev pub when_set : {A : Type 0} → ℕ → List A → List A
when_set zero xs = []
when_set (suc n) xs = xs

-- A record of `ep_buffer_control` that describes one buffer, the first.
abbrev pub one_buffer : Bool → Bool → ℕ → Dpram → ℕ → Dpram
one_buffer available pid length d n =
    put_control n
      (record no_buffers {
        slot_0 = record {
          full = false;
          pid = pid;
          last = true;
          available = available;
          length = length;
        };
      })
      d

pub record InterruptPipe : Type 0 where
  pub pipe : Pipe
  pub max_packet_size : ℕ
  pub data_toggle : Bool

-- `Rp2040DeviceDetect`: what it reported last.
pub record DeviceDetect : Type 0 where
  pub status : DeviceStatus

unfoldable pub device_detect : DeviceDetect
device_detect = record { status = absent }

unfoldable pub device_status : ℕ → DeviceStatus
device_status zero = absent
device_status (suc zero) = present low1_5
device_status (suc (suc n)) = present full12

abbrev pub same_speed : UsbSpeed → UsbSpeed → Bool
same_speed low1_5 low1_5 = true
same_speed full12 full12 = true
same_speed UsbSpeed.high480 UsbSpeed.high480 = true
same_speed _ _ = false

abbrev pub same_status : DeviceStatus → DeviceStatus → Bool
same_status absent absent = true
same_status (present s) (present t) = same_speed s t
same_status _ _ = false

module _ {H W : Type 0} (pac : Pac H W) where
  -- The wakers that `on_irq` wakes, and the chip's state after it. The numbers of the register
  -- `ints` are its whole value.
  unfoldable pub on_irq : Usb H W → List Waker × Usb H W
  on_irq s = (pipes ++ device ++ control, modify pac inte (all masked ∷ []) (detected ending))
    where
      pending_now : ℕ
      pending_now = pac.read ints s.regs

      has_buffers : Bool
      has_buffers = pac.flag Field.buff_status_field pending_now

      pipes : List Waker
      pipes = if has_buffers then woken_pipes 15 0 (pac.read buff_status s.regs) else []

      device : List Waker
      device = when_set (bit_and pending_now 1) (device_waker ∷ [])

      control : List Waker
      control = when_set (bit_and pending_now 1112) (pipe_waker 0 ∷ [])

      ending : Usb H W
      ending = if has_buffers then write pac buff_status (all (2 ^ 32 - 4) ∷ []) s else s

      detected : Usb H W → Usb H W
      detected t =
          if bit_and pending_now 1 == 0
          then t
          else modify pac sie_status (bits Field.speed 3 ∷ []) t

      masked : ℕ
      masked =
          bit_and (pac.read inte (detected ending).regs)
            (2 ^ 32 - 1 - pac.read ints (detected ending).regs)

  -- `Rp2040DeviceDetect::poll_next`; `none` is `Poll::Pending`.
  unfoldable pub poll_device :
      W → DeviceDetect → Usb H W → Option DeviceStatus × DeviceDetect × Usb H W
  poll_device task d s =
      if same_status now d.status
      then (none, d, watched)
      else (some now, record { status = now }, watched)
    where
      registered : Usb H W
      registered = on_regs (pac.register device_waker task) s

      now : DeviceStatus
      now = device_status (pac.field Field.speed (pac.read sie_status registered.regs))

      watched : Usb H W
      watched = modify pac inte (set_bit Field.host_conn_dis ∷ []) registered

  -- The packet that `Rp2040InterruptPipe::poll` finds: at most 64 bytes, at 0x200 + 128 * which.
  unfoldable pub packet_at : ℕ → Usb H W → InterruptPacket
  packet_at which s = record {
    address = pac.field Field.address from;
    endpoint = pac.field Field.endpoint from;
    size = size;
    bytes = store 0 (load (512 + which * 128) size s.dpram.memory) (replicate 64 0);
  }
    where
      from : ℕ
      from = pac.read (host_addr_endp (which - 1)) s.regs

      size : ℕ
      size = min (s.dpram.controls (which * 2)).slot_0.length 64

  unfoldable pub poll_interrupt :
      InterruptPipe → Usb H W → Option InterruptPacket × InterruptPipe × Usb H W
  poll_interrupt p s =
      if (s.dpram.controls (p.pipe.which * 2)).slot_0.full
      then (
        some (packet_at p.pipe.which s),
        record p { data_toggle = not p.data_toggle },
        record s {
          dpram = one_buffer true (not p.data_toggle) p.max_packet_size s.dpram (p.pipe.which * 2);
        },
      )
      else (
        none,
        p,
        write pac ep_status_stall_nak (all (3 * 2 ^ (p.pipe.which * 2)) ∷ [])
            (enabled (modify pac inte (set_bit Field.buff_status_field ∷ []) s)),
      )
    where
      enabled : Usb H W → Usb H W
      enabled t =
          modify pac int_ep_ctrl
            (all (bit_or (pac.read int_ep_ctrl t.regs) (2 ^ p.pipe.which)) ∷ []) t

  unfoldable pub poll_next :
      W → InterruptPipe → Usb H W → Option InterruptPacket × InterruptPipe × Usb H W
  poll_next task p s = poll_interrupt p (on_regs (pac.register (pipe_waker p.pipe.which) task) s)

  unfoldable pub interrupt_pipe : Pipe → ℕ → ℕ → ℕ → ℕ → Usb H W → InterruptPipe × Usb H W
  interrupt_pipe pipe address endpoint max_packet_size interval_ms s = (
    record { pipe = pipe; max_packet_size = max_packet_size; data_toggle = false },
    buffered (
        write pac (ep_control (pipe.which * 2 - 2))
          (set_bit Field.enable
            ∷ set_bit Field.interrupt_per_buff
            ∷ kind interrupt
            ∷ bits Field.buffer_address (512 + pipe.which * 128)
            ∷ bits Field.host_poll_interval (min interval_ms 9)
            ∷ [])
          (write pac (host_addr_endp (pipe.which - 1))
            (bits Field.address address
              ∷ bits Field.endpoint endpoint
              ∷ clear_bit Field.intep_dir
              ∷ [])
            s)),
  )
    where
      buffered : Usb H W → Usb H W
      buffered t = record t {
        dpram = one_buffer true false max_packet_size t.dpram (pipe.which * 2);
      }

  unfoldable pub alloc_interrupt_pipe : W → ℕ → ℕ → ℕ → ℕ → Async (Usb H W) InterruptPipe
  alloc_interrupt_pipe task address endpoint max_packet_size interval_ms =
      Polls.◌>>=◌ (alloc_pipe task interrupt) (λ pipe.
        sync (λ s. returns (interrupt_pipe pipe address endpoint max_packet_size interval_ms s)))

  abbrev pub opened :
      ℕ → ℕ → ℕ → ℕ → Option Pipe × Usb H W → Result UsbError InterruptPipe × Usb H W
  opened address endpoint max_packet_size interval_ms (none, s) = (err too_many_devices, s)
  opened address endpoint max_packet_size interval_ms (some pipe, s) =
      let (p, t) = interrupt_pipe pipe address endpoint max_packet_size interval_ms s in (ok p, t)

  unfoldable pub try_alloc_interrupt_pipe :
      ℕ → ℕ → ℕ → ℕ → Usb H W → Outcome (Result UsbError InterruptPipe × Usb H W)
  try_alloc_interrupt_pipe address endpoint max_packet_size interval_ms s = do
    r ← try_alloc_pipe interrupt s
    returns (opened address endpoint max_packet_size interval_ms r)
