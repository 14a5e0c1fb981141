-- ===== src/UsbHost/Rp2040/Inner/Completes.antt =====
-- cotton-usb-host/src/host/rp2040.rs: the rule of the loop of `control_transfer_inner`. What its
-- steps keep, and the world between them, holds where it ends.
use cotton.Prelude.{
  ℕ, suc, ◌+◌, ◌/◌, true, false, Bool-cases, inl, inr, Option, none, some, List, [], ◌∷◌, ◌≡◌, refl,
}
use cotton.Prelude.Outcome.{Outcome, returns, panics}
use cotton.Prelude.Result.{Result, ok, err}
use cotton.UsbHost.HostController.{UsbError}
use cotton.UsbHost.Rp2040.Packetiser.{Packetiser}
use cotton.UsbHost.Rp2040.Depacketiser.{Depacketiser}
use cotton.UsbHost.Rp2040.Pac.{Pac, Register, Field, Setting}
use cotton.UsbHost.Rp2040.Polls.{Progress}
use cotton.UsbHost.Rp2040.Polls.Ends.{Holds, bind-Holds, All, Ends}
use cotton.UsbHost.Rp2040.Inner.Keeps.{
  AreSteps, enter_keeps, disable_interrupts_keeps, retire_both_keeps, poll_keeps,
}
use cotton.UsbHost.Rp2040.Transfer.{Direction, Usb, Inner, write, modify, poll, packets_of}
use cotton.UsbHost.Rp2040.Inner.{
  disable_interrupts, retire_one, start_transfer, retire_both, finish, awaited, failed, completed,
  resume, await_packets, control_transfer_inner,
}

-- The steps after `trans_complete` keep `J`.
pub record AreLastSteps {H W P D : Type 0} (pac : Pac H W) (depacketiser : Depacketiser D)
    (J : Inner P D × Usb H W → Type 0) : Type 0 where
  pub on_write :
      (i : Inner P D) (s : Usb H W) (r : Register) (settings : List Setting)
      → J (i, s)
      → J (i, write pac r settings s)
  pub on_modify :
      (i : Inner P D) (s : Usb H W) (r : Register) (settings : List Setting)
      → J (i, s)
      → J (i, modify pac r settings s)
  pub on_retire : (r : Inner P D × Usb H W) → J r → Holds J (retire_one depacketiser r)

module _ {H W P D : Type 0} (J I : Inner P D × Usb H W → Type 0) where
  -- `J` where the transfer succeeded, `I` where it failed.
  abbrev pub Ended : Result UsbError (Unit {0}) × Inner P D → Usb H W → Type 0
  Ended (ok u, i) s = J (i, s)
  Ended (err e, i) s = I (i, s)

module _ {H W P D : Type 0} {pac : Pac H W} {packetiser : Packetiser P}
    {depacketiser : Depacketiser D} {task : W} {K : (Usb H W → Usb H W) → Type 0}
    {I : Inner P D × Usb H W → Type 0} (J : Inner P D × Usb H W → Type 0)
    (steps : AreSteps pac packetiser depacketiser task K I)
    (ending : (i : Inner P D) (s : Usb H W) (status : ℕ)
      → I (i, s)
      → (poll pac task s).0 ≡ some status
      → pac.flag Field.trans_complete status ≡ true
      → Holds J (
          finish pac packetiser depacketiser (i, disable_interrupts pac (poll pac task s).1))) where
  module _ (direction : Direction) (packets : ℕ) where
    abbrev Run : Type 0
    Run = Progress (Usb H W) (Result UsbError (Unit {0}) × Inner P D)

    resume-Ends :
        (again : Inner P D × Usb H W → Run) (o : Outcome (Inner P D × Usb H W))
        → ((r : Inner P D × Usb H W) → I r → Ends K (Ended J I) (again r))
        → Holds I o
        → Ends K (Ended J I) (resume pac packetiser depacketiser task direction packets again o)
    resume-Ends again (returns r) k h = k r h
    resume-Ends again panics k h = elim h [ ]

    completed-Ends :
        (later : List (Usb H W → Usb H W)) (o : Outcome (Inner P D × Usb H W))
        → All K later
        → Holds J o
        → Ends K (Ended J I) (completed pac packetiser depacketiser task direction packets later o)
    completed-Ends later (returns r) l h = (l, h)
    completed-Ends later panics l h = elim h [ ]

    failed-Ends :
        (again : Inner P D × Usb H W → Run) (later : List (Usb H W → Usb H W))
        (r : Inner P D × Usb H W) (e : Option UsbError)
        → ((r : Inner P D × Usb H W) → I r → Ends K (Ended J I) (again r))
        → All K later
        → I r
        → Ends K
            (Ended J I)
            (failed pac packetiser depacketiser task direction packets again later r e)
    failed-Ends again later r (some e) k l h = (l, h)
    failed-Ends again later r none k l h = resume-Ends again _ k (
        bind-Holds I I (retire_both pac packetiser depacketiser r) _ (retire_both_keeps steps r h)
          (enter_keeps steps direction packets))

    awaited-Ends :
        (again : Inner P D × Usb H W → Run) (later : List (Usb H W → Usb H W)) (i : Inner P D)
        (o : Option ℕ × Usb H W)
        → ((r : Inner P D × Usb H W) → I r → Ends K (Ended J I) (again r))
        → All K later
        → I (i, o.1)
        → ((status : ℕ)
            → o.0 ≡ some status
            → pac.flag Field.trans_complete status ≡ true
            → Holds J (finish pac packetiser depacketiser (i, disable_interrupts pac o.1)))
        → Ends K
            (Ended J I)
            (awaited pac packetiser depacketiser task direction packets again later i o)
    awaited-Ends again later i (none, s) k l h j = k (i, s) h
    awaited-Ends again later i (some status, s) k l h j =
        elim (Bool-cases (pac.flag Field.trans_complete status)) [
          | inl q ↦ rw q (completed-Ends later _ l (j status refl q))
          | inr q ↦ rw q (failed-Ends again later _ _ k l (disable_interrupts_keeps steps i s h))
        ]

    await_packets-Ends :
        (later : List (Usb H W → Usb H W)) (r : Inner P D × Usb H W)
        → All K later
        → I r
        → Ends K
            (Ended J I)
            (await_packets pac packetiser depacketiser task direction packets later r)
    unfolding await_packets
    await_packets-Ends [] r l h = tt
    await_packets-Ends (world ∷ later) r (k, l) h =
        let now = steps.on_world r.0 r.1 world k h in
        awaited-Ends _ later r.0 (poll pac task (world r.1)) (λ t. await_packets-Ends later t l) l
          (poll_keeps steps r.0 (world r.1) now) (λ status. ending r.0 (world r.1) status now)

  -- The loop does not panic; it leaves `J` where the chip reported completion, else `I`.
  pub control_transfer_inner-Finishes :
      (address endpoint n : ℕ) (direction : Direction) (size : ℕ) (p : P) (d : D)
      (later : List (Usb H W → Usb H W)) (s : Usb H W)
      → All K later
      → I (
        record { packetiser = p; depacketiser = d; in_flight = 0; started = false },
        start_transfer pac address endpoint (size / suc n + 1) s,
      )
      → Ends K (Ended J I) (
          control_transfer_inner pac packetiser depacketiser task address endpoint
            (suc n)
            direction
            size
            p
            d
            later
            s)
  unfolding control_transfer_inner packets_of
  control_transfer_inner-Finishes address endpoint n direction size p d later s l h =
      resume-Ends direction (size / suc n + 1) _ _
        (λ r. await_packets-Ends direction (size / suc n + 1) later r l)
        (enter_keeps steps direction (size / suc n + 1) _ h)

module _ {H W P D : Type 0} {pac : Pac H W} {packetiser : Packetiser P}
    {depacketiser : Depacketiser D} {task : W} {K : (Usb H W → Usb H W) → Type 0}
    {I J : Inner P D × Usb H W → Type 0} (steps : AreSteps pac packetiser depacketiser task K I)
    (last : AreLastSteps pac depacketiser J)
    (done : (i : Inner P D) (s : Usb H W) (status : ℕ)
      → I (i, s)
      → (poll pac task s).0 ≡ some status
      → pac.flag Field.trans_complete status ≡ true
      → J (i, (poll pac task s).1)) where
  finish_keeps : (r : Inner P D × Usb H W) → J r → Holds J (finish pac packetiser depacketiser r)
  unfolding finish
  finish_keeps r h =
      bind-Holds J J (retire_one depacketiser r) _ (last.on_retire r h)
        (λ r₁ h₁. last.on_retire _ (last.on_write r₁.0 r₁.1 _ _ h₁))

  -- The same where `J` holds from the report on.
  pub control_transfer_inner-Completes :
      (address endpoint n : ℕ) (direction : Direction) (size : ℕ) (p : P) (d : D)
      (later : List (Usb H W → Usb H W)) (s : Usb H W)
      → All K later
      → I (
        record { packetiser = p; depacketiser = d; in_flight = 0; started = false },
        start_transfer pac address endpoint (size / suc n + 1) s,
      )
      → Ends K (Ended J I) (
          control_transfer_inner pac packetiser depacketiser task address endpoint
            (suc n)
            direction
            size
            p
            d
            later
            s)
  control_transfer_inner-Completes = control_transfer_inner-Finishes J steps (λ i s status h e f.
      finish_keeps _ (last.on_modify i _ _ _ (last.on_write i _ _ _ (done i s status h e f))))

module _ {H W P D : Type 0} {pac : Pac H W} {packetiser : Packetiser P}
    {depacketiser : Depacketiser D} {task : W} {K : (Usb H W → Usb H W) → Type 0}
    {I : Inner P D × Usb H W → Type 0} (steps : AreSteps pac packetiser depacketiser task K I) where
  -- The same where nothing is known of completion.
  pub control_transfer_inner-Ends :
      (address endpoint n : ℕ) (direction : Direction) (size : ℕ) (p : P) (d : D)
      (later : List (Usb H W → Usb H W)) (s : Usb H W)
      → All K later
      → I (
        record { packetiser = p; depacketiser = d; in_flight = 0; started = false },
        start_transfer pac address endpoint (size / suc n + 1) s,
      )
      → Ends K (Ended I I) (
          control_transfer_inner pac packetiser depacketiser task address endpoint
            (suc n)
            direction
            size
            p
            d
            later
            s)
  control_transfer_inner-Ends =
      control_transfer_inner-Completes steps
        (record {
          on_write = steps.on_write;
          on_modify = steps.on_modify;
          on_retire = steps.on_retire;
        })
        (λ i s status h e f. poll_keeps steps i s h)
