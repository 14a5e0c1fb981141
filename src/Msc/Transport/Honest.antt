-- ===== src/Msc/Transport/Honest.antt =====
-- cotton-usb-host-msc/src/mass_storage.rs: a mass-storage device fills the interface that the SCSI
-- layer asks of a transport.
use cotton.Prelude.{
  ℕ, ◌≤◌, ◌≡◌, refl, subst, inl, inr, Bool, true, false, ltb, leb, [], get_or, bit_or, length,
  replicate, Bool-cases, arith,
}
use cotton.Prelude.Bytes.{Bytes}
use cotton.Prelude.Outcome.{Outcome, returns, panics}
use cotton.Prelude.Result.{Result, ok, err}
use cotton.Scsi.Transport.{DataPhase, data_in, data_out, no_data, Reply}
use cotton.Scsi.Device.{issue}
use cotton.Scsi.Device.Errors.{IsHonest, Ends, issue-Ends}
use cotton.UsbHost.HostController as Usb
use cotton.UsbHost.HostController.{UsbError, TransferType, HostController, Transfer, ret}
use cotton.UsbHost.Wire.Descriptors.{clear_feature}
use cotton.UsbHost.Bus.Requests.{
  setup, control_result, bulk_in_transfer, bulk_out_transfer, clear_halt,
}
use cotton.Msc.Wrapper as Wrapper
use cotton.Msc.Wrapper.{CommandBlockWrapper}
use cotton.Msc.Transport.{
  State, Step, cleared, read_status, finish, exchange, data_phase, settle, status_reply,
  receive_status, command, mass_storage,
}

-- A controller never claims more bytes than the buffer of an `In` transfer holds.
pub record IsBounded {H P : Type 0} (driver : HostController H P) : Type 0 where
  pub bulk_in :
      (address endpoint size : ℕ) (buf : Bytes) (kind : TransferType) (toggle : Bool) (h : H)
      (n : ℕ)
      → (driver.bulk_in_transfer address endpoint size buf kind toggle h).0.result ≡ ok n
      → n ≤ length (driver.bulk_in_transfer address endpoint size buf kind toggle h).0.buffer

-- What a count means in each phase: only an `In` phase is bounded by the caller's buffer.
abbrev pub Fits : DataPhase → Bytes → ℕ → Type 0
Fits (data_in _) buf n = n ≤ length buf
Fits (data_out _) buf n = Unit
Fits no_data buf n = Unit

zero-Fits : (phase : DataPhase) (buf : Bytes) → Fits phase buf 0
zero-Fits (data_in _) buf = omega arith
zero-Fits (data_out _) buf = tt
zero-Fits no_data buf = tt

-- A result whose count, if there is one, fits.
abbrev pub Claims : {E : Type 0} → DataPhase → Bytes → Result E ℕ → Type 0
Claims phase buf (ok n) = Fits phase buf n
Claims phase buf (err e) = Unit

module _ {H P : Type 0} (driver : HostController H P) (bounded : IsBounded driver) where
  -- The command comes back, with a count that fits.
  abbrev Answers : DataPhase → Outcome (Reply UsbError × State driver) → Type 0
  Answers phase panics = ⊥
  Answers phase (returns (reply, s)) = Claims phase reply.buffer reply.result

  abbrev Settles : DataPhase → Bytes → Outcome (Step driver ℕ) → Type 0
  Settles phase buf panics = ⊥
  Settles phase buf (returns (r, s)) = Claims phase buf r

  stall-Settles :
      (phase : DataPhase) (buf : Bytes) (s : State driver)
      → Settles phase buf (settle driver (err UsbError.stall) s)
  unfolding settle clear_halt
  stall-Settles phase buf (m, h) =
      let (r, h') =
        driver.control_transfer m.bulk_in.usb_address 8
          (setup 2 clear_feature 0 (bit_or m.bulk_in.endpoint 0x80) 0) Usb.DataPhase.no_data h in
      halt r.0 r.1 h'
    where
      halt :
          (r : Result UsbError ℕ) (b : Bytes) (h' : H)
          → Settles phase buf (
              cleared driver m (
                Usb.and_then
                  (λ x. ret (record m.bulk_in { data_toggle = false }))
                  (control_result driver ((r, b), h'))))
      halt (ok n) b h' = zero-Fits phase buf
      halt (err e) b h' = tt

  settle-Settles :
      (phase : DataPhase) (buf : Bytes) (r : Result UsbError ℕ) (s : State driver)
      → Claims phase buf r
      → Settles phase buf (settle driver r s)
  unfolding settle
  settle-Settles phase buf (ok n) s h = h
  settle-Settles phase buf (err UsbError.stall) s h = stall-Settles phase buf s
  settle-Settles phase buf (err e) s h = tt

  data_phase-Claims :
      (phase : DataPhase) (s : State driver)
      → Claims phase (data_phase driver phase s).0.1 (data_phase driver phase s).0.0
  unfolding data_phase bulk_in_transfer bulk_out_transfer
  data_phase-Claims (data_in buf) (m, h) =
      let t =
        (driver.bulk_in_transfer m.bulk_in.usb_address m.bulk_in.endpoint 64 buf
          TransferType.fixed_size m.bulk_in.data_toggle h).0 in
      in_phase t.buffer t.result (
        bounded.bulk_in m.bulk_in.usb_address m.bulk_in.endpoint 64 buf TransferType.fixed_size
          m.bulk_in.data_toggle h)
    where
      in_phase :
          (b : Bytes) (r : Result UsbError ℕ)
          → ((n : ℕ) → r ≡ ok n → n ≤ length b)
          → Claims (data_in buf) b r
      in_phase b (ok n) f = f n refl
      in_phase b (err e) f = tt
  data_phase-Claims (data_out buf) (m, h) =
      out_phase
        (driver.bulk_out_transfer m.bulk_out.usb_address m.bulk_out.endpoint 64 buf
          TransferType.fixed_size m.bulk_out.data_toggle h).0.result
    where
      out_phase : (r : Result UsbError ℕ) → Claims (data_out buf) [] r
      out_phase (ok n) = tt
      out_phase (err e) = tt
  data_phase-Claims no_data s = tt

  status_reply-Claims :
      (phase : DataPhase) (buf : Bytes) (n status : ℕ)
      → Fits phase buf n
      → Claims phase buf (status_reply driver n status)
  status_reply-Claims phase buf n status h = ground arith

  read_status-Claims :
      (phase : DataPhase) (buf : Bytes) (n : ℕ) (r : Result UsbError ℕ) (csw : Bytes)
      (s : State driver)
      → Fits phase buf n
      → Claims phase buf (read_status driver n r csw s).0
  read_status-Claims phase buf n (ok k) csw s f = elim (Bool-cases (ltb k 13)) [
    | inl q ↦ rw q tt
    | inr q ↦ rw q (status_reply-Claims phase buf n (get_or csw 12 0) f)
  ]
  read_status-Claims phase buf n (err e) csw s f = tt

  receive_status-Claims :
      (phase : DataPhase) (buf : Bytes) (n : ℕ) (s : State driver)
      → Fits phase buf n
      → Claims phase buf (receive_status driver n s).0
  unfolding receive_status bulk_in_transfer
  receive_status-Claims phase buf n (m, h) f =
      let ((r, csw, ep), h') =
        bulk_in_transfer driver m.bulk_in (replicate 13 0) TransferType.fixed_size h in
      read_status-Claims phase buf n r csw (record m { bulk_in = ep }, h') f

  finish-Answers :
      (phase : DataPhase) (buf : Bytes) (o : Outcome (Step driver ℕ))
      → Settles phase buf o
      → Answers phase (finish driver buf o)
  finish-Answers phase buf (returns (ok n, s)) h = receive_status-Claims phase buf n s h
  finish-Answers phase buf (returns (err e, s)) h = tt
  finish-Answers phase buf panics h = elim h [ ]

  exchange-Answers :
      (phase : DataPhase) (st : Step driver (Unit {0})) → Answers phase (exchange driver phase st)
  exchange-Answers phase (err e, s) = tt
  exchange-Answers phase (ok _, s) =
      let d = data_phase driver phase s in
      finish-Answers phase d.0.1 (settle driver d.0.0 d.1)
        (settle-Settles phase d.0.1 d.0.0 d.1 (data_phase-Claims phase s))

  command-Answers :
      (cmd : Bytes) (phase : DataPhase) (s : State driver)
      → length cmd ≤ 17
      → Answers phase (command driver cmd phase s)
  unfolding command Wrapper.new
  command-Answers cmd phase (m, h) short = rw within_array (exchange-Answers phase _)
    where
      within_array : leb (length cmd) 17 ≡ true
      within_array = ground arith

  command_too_long :
      (cmd : Bytes) (phase : DataPhase) (s : State driver)
      → leb (length cmd) 17 ≡ false
      → command driver cmd phase s ≡ panics
  unfolding command Wrapper.new
  command_too_long cmd phase (m, h) long = rw long refl

  answered :
      (phase : DataPhase) (o : Outcome (Reply UsbError × State driver))
      → Answers phase o
      → (reply : Reply UsbError) × (s : State driver) × (o ≡ returns (reply, s))
  answered phase (returns (reply, s)) h = (reply, s, refl)
  answered phase panics h = elim h [ ]

  command-within :
      (cmd buf : Bytes) (s : State driver) (reply : Reply UsbError) (s' : State driver) (n : ℕ)
      → command driver cmd (data_in buf) s ≡ returns (reply, s')
      → reply.result ≡ ok n
      → n ≤ length reply.buffer
  command-within cmd buf s reply s' n e q = elim (Bool-cases (leb (length cmd) 17)) [
    | inl short ↦
        subst (Claims (data_in buf) reply.buffer) q
          (subst (Answers (data_in buf)) e (command-Answers cmd (data_in buf) s (ground arith)))
    | inr long ↦ (let p = command_too_long cmd (data_in buf) s long in absurd cc)
  ]

  -- Over a controller that never claims more bytes than a buffer holds, a mass-storage device answers
  -- every command block of 16 bytes or fewer, whatever the controller reports, and never claims more
  -- bytes than the caller's buffer holds: it is a transport as the SCSI layer asks for it.
  pub mass_storage-IsHonest : IsHonest (mass_storage driver)
  unfolding mass_storage
  mass_storage-IsHonest = record {
    replies = λ cmd phase s h.
        answered phase (command driver cmd phase s) (command-Answers cmd phase s (omega arith));
    within = command-within;
  }

  -- So over such a controller a SCSI command of 16 bytes or fewer to a mass-storage device never
  -- panics, and ends in one of the ways that are listed for every transport.
  pub issue-mass_storage-Ends :
      (cmd : Bytes) (phase : DataPhase) (s : State driver)
      → length cmd ≤ 16
      → Ends (mass_storage driver) cmd phase s (issue (mass_storage driver) cmd phase s)
  issue-mass_storage-Ends = issue-Ends (mass_storage driver) mass_storage-IsHonest
