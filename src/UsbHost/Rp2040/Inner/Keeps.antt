-- ===== src/UsbHost/Rp2040/Inner/Keeps.antt =====
-- cotton-usb-host/src/host/rp2040.rs: the steps of the loop of `control_transfer_inner`.
use cotton.Prelude.{ℕ, Bool, true, false, Bool-cases, inl, inr, List, ◌==◌, bit_and}
use cotton.UsbHost.Rp2040.Packetiser.{Packetiser}
use cotton.UsbHost.Rp2040.Depacketiser.{Depacketiser}
use cotton.UsbHost.Rp2040.Pac.{Pac, Register, Setting, intr, pipe_waker}
use cotton.UsbHost.Rp2040.Polls.Ends.{Holds, bind-Holds}
use cotton.UsbHost.Rp2040.Transfer.{Direction, Usb, Inner, write, modify, on_regs, poll}
use cotton.UsbHost.Rp2040.Inner.{
  prepare_one, retire_one, start, enable_interrupts, disable_interrupts, enter, retire_both,
}

-- Every step of the loop keeps `I`, and so does every action `K` of the world.
pub record AreSteps {H W P D : Type 0} (pac : Pac H W) (packetiser : Packetiser P)
    (depacketiser : Depacketiser D) (task : W) (K : (Usb H W → Usb H W) → Type 0)
    (I : Inner P D × Usb H W → Type 0) : Type 0 where
  pub on_write :
      (i : Inner P D) (s : Usb H W) (r : Register) (settings : List Setting)
      → I (i, s)
      → I (i, write pac r settings s)
  pub on_modify :
      (i : Inner P D) (s : Usb H W) (r : Register) (settings : List Setting)
      → I (i, s)
      → I (i, modify pac r settings s)
  pub on_register :
      (i : Inner P D) (s : Usb H W) → I (i, s) → I (i, on_regs (pac.register (pipe_waker 0) task) s)
  pub on_start : (i : Inner P D) (s : Usb H W) → I (i, s) → I (record i { started = true }, s)
  pub on_prepare : (r : Inner P D × Usb H W) → I r → Holds I (prepare_one packetiser r)
  pub on_retire : (r : Inner P D × Usb H W) → I r → Holds I (retire_one depacketiser r)
  pub on_world :
      (i : Inner P D) (s : Usb H W) (world : Usb H W → Usb H W)
      → K world
      → I (i, s)
      → I (i, world s)

module _ {H W P D : Type 0} {pac : Pac H W} {packetiser : Packetiser P}
    {depacketiser : Depacketiser D} {task : W} {K : (Usb H W → Usb H W) → Type 0}
    {I : Inner P D × Usb H W → Type 0} (steps : AreSteps pac packetiser depacketiser task K I) where
  enable_interrupts_keeps :
      (packets : ℕ) (i : Inner P D) (s : Usb H W)
      → I (i, s)
      → I (i, enable_interrupts pac packets s)
  enable_interrupts_keeps packets i s h =
      steps.on_modify i _ _ _ (steps.on_write i _ _ _ (steps.on_write i s _ _ h))

  pub disable_interrupts_keeps :
      (i : Inner P D) (s : Usb H W) → I (i, s) → I (i, disable_interrupts pac s)
  disable_interrupts_keeps i s h = steps.on_modify i _ _ _ (steps.on_write i s _ _ h)

  start_keeps :
      (direction : Direction) (b : Bool) (i : Inner P D) (s : Usb H W)
      → I (i, s)
      → I (i, start pac direction b s)
  start_keeps direction true i s h = h
  start_keeps direction false i s h = steps.on_modify i _ _ _ (steps.on_modify i s _ _ h)

  pub enter_keeps :
      (direction : Direction) (packets : ℕ) (r : Inner P D × Usb H W)
      → I r
      → Holds I (enter pac packetiser depacketiser direction packets r)
  unfolding enter
  enter_keeps direction packets r h =
      bind-Holds I I (prepare_one packetiser r) _ (steps.on_prepare r h) (λ r₁ h₁.
        bind-Holds I I (prepare_one packetiser r₁) _ (steps.on_prepare r₁ h₁) (λ r₂ h₂.
          steps.on_start r₂.0 _ (
            start_keeps direction r₂.0.started r₂.0 _
              (enable_interrupts_keeps packets r₂.0 r₂.1 h₂))))

  pub retire_both_keeps :
      (r : Inner P D × Usb H W) → I r → Holds I (retire_both pac packetiser depacketiser r)
  unfolding retire_both
  retire_both_keeps r h =
      bind-Holds I I (retire_one depacketiser r) _ (steps.on_retire r h) steps.on_retire

  pub poll_keeps : (i : Inner P D) (s : Usb H W) → I (i, s) → I (i, (poll pac task s).1)
  unfolding poll
  poll_keeps i s h =
      elim (Bool-cases
        (bit_and (pac.read intr (pac.register (pipe_waker 0) task s.regs)) 1112 == 0)) [
          | inl q ↦
              rw q (steps.on_modify i _ _ _ (steps.on_write i _ _ _ (steps.on_register i s h)))
          | inr q ↦ rw q (steps.on_write i _ _ _ (steps.on_register i s h))
        ]
