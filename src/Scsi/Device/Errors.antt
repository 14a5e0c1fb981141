-- ===== src/Scsi/Device/Errors.antt =====
-- cotton-scsi/src/scsi_device.rs: how a command ends, errors included.
use cotton.Prelude.{
  ℕ, ◌≤◌, ◌≡◌, refl, ◌≢◌, true, none, some, inl, inr, length, take, replicate, leb, Option-cases,
  arith,
}
use cotton.Prelude.Bytes.{Bytes}
use cotton.Prelude.Outcome.{Outcome, returns}
use cotton.Prelude.Result.{Result, ok, err}
use cotton.Scsi.Transport.{
  Error, command_failed, protocol_error, transport, scsi, DataPhase, data_in, Reply, ScsiTransport,
  ScsiError, and_then,
}
use cotton.Scsi.Commands.{request_sense_command}
use cotton.Scsi.Sense.{RequestSenseReply, sense_from_bytes, classify}
use cotton.Scsi.Device.{
  request_sense, try_upgrade_error, issue, issued, as_err, upgraded, replied, sense_reply,
}

sense_short : length request_sense_command ≤ 16
unfolding request_sense_command
sense_short = omega arith

module _ {T E : Type 0} (tr : ScsiTransport T E) where
  -- A command block of 16 bytes or fewer gets its reply, and the transport never claims more bytes
  -- than the buffer of an `In` phase holds.
  pub record IsHonest : Type 0 where
    pub replies :
        (cmd : Bytes) (phase : DataPhase) (t : T)
        → length cmd ≤ 16
        → (reply : Reply E) × (t' : T) × (tr.command cmd phase t ≡ returns (reply, t'))
    pub within :
        (cmd buf : Bytes) (t : T) (reply : Reply E) (t' : T) (n : ℕ)
        → tr.command cmd (data_in buf) t ≡ returns (reply, t')
        → reply.result ≡ ok n
        → n ≤ length reply.buffer

  -- REQUEST SENSE as it stands behind a failed command.
  abbrev pub sense : T → Outcome (Reply E × T)
  sense t = tr.command request_sense_command (data_in (replicate 18 0)) t

  -- Every way in which a command ends.
  pub data Ends (cmd : Bytes) (phase : DataPhase) (t : T)
      : Outcome (Result (Error E) (ℕ × Bytes) × T) → Type 0 where
    succeeded :
        (n : ℕ) (buf : Bytes) (t' : T)
        → tr.command cmd phase t ≡ returns (record { result = ok n; buffer = buf }, t')
        → Ends cmd phase t (returns (ok (n, buf), t'))
    passed_on :
        (e : Error E) (buf : Bytes) (t' : T)
        → tr.command cmd phase t ≡ returns (record { result = err e; buffer = buf }, t')
        → e ≢ command_failed
        → Ends cmd phase t (returns (err e, t'))
    upgraded_to :
        (s : ScsiError) (r : RequestSenseReply) (n : ℕ) (buf data' : Bytes) (t' t'' : T)
        → tr.command cmd phase t
          ≡ returns (record { result = err command_failed; buffer = buf }, t')
        → sense t' ≡ returns (record { result = ok n; buffer = data' }, t'')
        → sense_from_bytes (take n data') ≡ some r
        → classify r ≡ some s
        → Ends cmd phase t (returns (err (scsi s), t''))
    not_named :
        (r : RequestSenseReply) (n : ℕ) (buf data' : Bytes) (t' t'' : T)
        → tr.command cmd phase t
          ≡ returns (record { result = err command_failed; buffer = buf }, t')
        → sense t' ≡ returns (record { result = ok n; buffer = data' }, t'')
        → sense_from_bytes (take n data') ≡ some r
        → classify r ≡ none
        → Ends cmd phase t (returns (err command_failed, t''))
    not_sense_data :
        (n : ℕ) (buf data' : Bytes) (t' t'' : T)
        → tr.command cmd phase t
          ≡ returns (record { result = err command_failed; buffer = buf }, t')
        → sense t' ≡ returns (record { result = ok n; buffer = data' }, t'')
        → sense_from_bytes (take n data') ≡ none
        → Ends cmd phase t (returns (err command_failed, t''))
    sense_failed :
        (e : Error E) (buf data' : Bytes) (t' t'' : T)
        → tr.command cmd phase t
          ≡ returns (record { result = err command_failed; buffer = buf }, t')
        → sense t' ≡ returns (record { result = err e; buffer = data' }, t'')
        → Ends cmd phase t (returns (err command_failed, t''))

  module _ (honest : IsHonest) (cmd : Bytes) (phase : DataPhase) (t : T) where
    sense_ok :
        (n : ℕ) (buf data' : Bytes) (t' t'' : T)
        → tr.command cmd phase t
          ≡ returns (record { result = err command_failed; buffer = buf }, t')
        → sense t' ≡ returns (record { result = ok n; buffer = data' }, t'')
        → n ≤ length data'
        → Ends cmd phase t (as_err tr (upgraded tr (sense_reply tr (n, data') t'')))
    sense_ok n buf data' t' t'' e s h =
        let inside : leb n (length data') ≡ true = ground arith in
        elim (Option-cases (sense_from_bytes (take n data'))) [
          | inl q ↦ rw (inside, q) (not_sense_data n buf data' t' t'' e s q)
          | inr (r, q) ↦ elim (Option-cases (classify r)) [
            | inl c ↦ rw (inside, q, c) (not_named r n buf data' t' t'' e s q c)
            | inr (x, c) ↦ rw (inside, q, c) (upgraded_to x r n buf data' t' t'' e s q c)
          ]
        ]

    sense-Ends :
        (buf : Bytes) (t' : T) (res : Result (Error E) ℕ) (data' : Bytes) (t'' : T)
        → tr.command cmd phase t
          ≡ returns (record { result = err command_failed; buffer = buf }, t')
        → sense t' ≡ returns (record { result = res; buffer = data' }, t'')
        → ((n : ℕ) → res ≡ ok n → n ≤ length data')
        → Ends cmd phase t
            (as_err tr (upgraded tr (and_then (sense_reply tr) (replied tr res data' t''))))
    sense-Ends buf t' (ok n) data' t'' e s h = sense_ok n buf data' t' t'' e s (h n refl)
    sense-Ends buf t' (err x) data' t'' e s h = sense_failed x buf data' t' t'' e s

    -- The reply to REQUEST SENSE, after any failed command.
    upgraded-Ends :
        (buf : Bytes) (t' : T)
        → tr.command cmd phase t
          ≡ returns (record { result = err command_failed; buffer = buf }, t')
        → Ends cmd phase t (as_err tr (upgraded tr (request_sense tr t')))
    unfolding request_sense
    upgraded-Ends buf t' e =
        let (reply, t'', s) =
          honest.replies request_sense_command (data_in (replicate 18 0)) t' sense_short in
        rw s (
          sense-Ends buf t' reply.result reply.buffer t'' e s
            (λ n q. honest.within request_sense_command (replicate 18 0) t' reply t'' n s q))

    issued-Ends :
        (res : Result (Error E) ℕ) (buf : Bytes) (t' : T)
        → tr.command cmd phase t ≡ returns (record { result = res; buffer = buf }, t')
        → Ends cmd phase t (issued tr res buf t')
    unfolding try_upgrade_error
    issued-Ends (ok n) buf t' e = succeeded n buf t' e
    issued-Ends (err command_failed) buf t' e = upgraded-Ends buf t' e
    issued-Ends (err protocol_error) buf t' e = passed_on protocol_error buf t' e (λ q. cc)
    issued-Ends (err (transport x)) buf t' e = passed_on (transport x) buf t' e (λ q. cc)
    issued-Ends (err (scsi x)) buf t' e = passed_on (scsi x) buf t' e (λ q. cc)

    -- Over a transport that answers every command block of 16 bytes or fewer and never claims more
    -- bytes than a buffer holds, such a command never panics, and ends in one of the listed ways: a
    -- success, an error passed on, or a failure that REQUEST SENSE upgrades to a named error or,
    -- where the sense data name none or do not come, leaves as it is.
    pub issue-Ends : length cmd ≤ 16 → Ends cmd phase t (issue tr cmd phase t)
    unfolding issue
    issue-Ends short =
        let (reply, t', e) = honest.replies cmd phase t short in
        rw e (issued-Ends reply.result reply.buffer t' e)
