-- ===== src/UsbHost/Rp2040/Pipes.antt =====
-- cotton-usb-host/src/host/rp2040.rs: the pipes, shared out by the pools of `UsbStatics`, and the
-- chip's state when the program takes it over.
use cotton.Prelude.{ℕ, ◌+◌, Bool, true, false, Option, none, some, [], ◌∷◌, if◌then◌else◌}
use cotton.Prelude.Outcome
use cotton.Prelude.Outcome.{Outcome, returns, panics}
use cotton.UsbHost.Pool.{Pool, new, poll, try_alloc, dealloc_internal}
use cotton.UsbHost.Rp2040.Dpram.{Dpram}
use cotton.UsbHost.Rp2040.Pac.{
  reset, usb_muxing, usb_pwr, main_ctrl, sie_ctrl, inte, Field, set_bit, clear_bit, EndpointType,
  control, isochronous, bulk, interrupt, Pac,
}
use cotton.UsbHost.Rp2040.Polls.{Async, ◌>>=◌, ret, sync, wait}
use cotton.UsbHost.Rp2040.Transfer.{Usb, write, modify, on_regs}

-- `pooled` is the number in the pool that the pipe gives back when it is dropped.
pub record Pipe : Type 0 where
  pub pooled : ℕ
  pub which : ℕ

unfoldable pub new_pipe : ℕ → ℕ → Pipe
new_pipe pooled offset = record { pooled = pooled; which = pooled + offset }

abbrev pub is_control : EndpointType → Bool
is_control control = true
is_control isochronous = false
is_control bulk = false
is_control interrupt = false

abbrev pub new_pipe? : ℕ → Option ℕ → Option Pipe
new_pipe? offset none = none
new_pipe? offset (some n) = some (new_pipe n offset)

module _ {H W : Type 0} where
  abbrev pub set_control_pipes : Usb H W → Option ℕ × Pool W → Option Pipe × Usb H W
  set_control_pipes s (n, p) = (new_pipe? 0 n, record s { control_pipes = p })

  abbrev pub set_bulk_pipes : Usb H W → Option ℕ × Pool W → Option Pipe × Usb H W
  set_bulk_pipes s (n, p) = (new_pipe? 1 n, record s { bulk_pipes = p })

  -- The await of `Pool::alloc`, for the task `task`.
  unfoldable pub poll_pipe : W → EndpointType → Usb H W → Outcome (Option Pipe × Usb H W)
  poll_pipe task ty s =
      if is_control ty
      then Outcome.◌>>=◌ (poll s.control_pipes task) (λ r. returns (set_control_pipes s r))
      else Outcome.◌>>=◌ (poll s.bulk_pipes task) (λ r. returns (set_bulk_pipes s r))

  unfoldable pub alloc_pipe : W → EndpointType → Async (Usb H W) Pipe
  alloc_pipe task ty = wait (poll_pipe task ty)

  unfoldable pub try_alloc_pipe : EndpointType → Usb H W → Outcome (Option Pipe × Usb H W)
  try_alloc_pipe ty s =
      if is_control ty
      then Outcome.◌>>=◌ (try_alloc s.control_pipes) (λ r. returns (set_control_pipes s r))
      else Outcome.◌>>=◌ (try_alloc s.bulk_pipes) (λ r. returns (set_bulk_pipes s r))

  -- The drop of a control pipe.
  unfoldable pub drop_pipe : Pipe → Usb H W → Outcome (Unit {0} × Usb H W)
  drop_pipe pipe s =
      Outcome.◌>>=◌ (dealloc_internal s.control_pipes pipe.pooled)
        (λ r. returns (tt, record s { control_pipes = r.1 }))

  -- `let _pipe = self.alloc_pipe(EndpointType::Control).await;` and the rest of the function.
  unfoldable pub with_pipe : {A : Type 0} → W → Async (Usb H W) A → Async (Usb H W) A
  with_pipe task body = do
    pipe ← alloc_pipe task control
    a ← body
    _ ← sync (drop_pipe pipe)
    ret a

-- `UsbStatics::new`: the bulk pipes and the control pipe.
unfoldable pub new_pools : {W : Type 0} → Outcome (Pool W × Pool W)
new_pools =
    Outcome.◌>>=◌ (new 15)
      (λ bulk_pipes. Outcome.◌>>=◌ (new 1) (λ pipes. returns (bulk_pipes, pipes)))

-- `Rp2040HostController::new`.
unfoldable pub new_controller :
    {H W : Type 0} (pac : Pac H W) → H → Dpram → Pool W × Pool W → Usb H W
new_controller pac h dpram pools = write pac inte (set_bit Field.host_conn_dis ∷ []) (
    on_regs pac.unpend_and_unmask (
      write pac sie_ctrl
        (set_bit Field.pulldown_en
          ∷ set_bit Field.vbus_en
          ∷ set_bit Field.keep_alive_en
          ∷ set_bit Field.sof_en
          ∷ [])
        (modify pac main_ctrl
          (clear_bit Field.sim_timing
            ∷ set_bit Field.host_ndevice
            ∷ set_bit Field.controller_en
            ∷ [])
          (modify pac usb_pwr
            (set_bit Field.vbus_detect ∷ set_bit Field.vbus_detect_override_en ∷ [])
            (modify pac usb_muxing (set_bit Field.to_phy ∷ set_bit Field.softcon ∷ []) (
              modify pac reset (clear_bit Field.usbctrl ∷ []) (
                modify pac reset (set_bit Field.usbctrl ∷ []) (record {
                  regs = h;
                  dpram = dpram;
                  control_pipes = pools.1;
                  bulk_pipes = pools.0;
                }))))))))
