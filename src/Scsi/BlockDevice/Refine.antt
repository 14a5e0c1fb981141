-- ===== src/Scsi/BlockDevice/Refine.antt =====
-- cotton-scsi/src/scsi_block_device.rs: a read or write of blocks is one transfer of the disk,
-- whichever of the two encodings carries it.
use cotton.Prelude.{
  ℕ, ◌+◌, ◌%◌, ◌^◌, ◌<◌, ◌≡◌, refl, ◌∙◌, ap, inl, inr, true, [], ◌∷◌, ◌++◌, length, ltb,
  if◌then◌else◌, Bool-cases, arith,
}
use cotton.Prelude.Bytes.{
  Bytes, to_be_bytes, from_be_bytes, length-to_be_bytes, from_be_bytes-to_be_bytes,
}
use cotton.Prelude.Outcome.{Outcome, returns, panics}
use cotton.Prelude.Result.{Result, ok, err}
use cotton.Scsi.Transport.{
  Error, protocol_error, data_in, data_out, Reply, ScsiTransport, Scsi, and_then, ret, fail,
}
use cotton.Scsi.Commands.{read10, read16, write10, write16}
use cotton.Scsi.Device.{
  try_upgrade_error, issue, issued, as_err, read_10, read_16, write_10, write_16,
}
use cotton.Scsi.BlockDevice.{fits_10, read_blocks, write_blocks}

module _ {T E : Type 0} where
  -- What the SCSI standard says of a disk: READ and WRITE of both sizes are transfers of `count`
  -- blocks from the block `lba`, both integers big-endian in the command.
  pub record IsDisk (tr : ScsiTransport T E) (read write : ℕ → ℕ → Bytes → T → Reply E × T)
      : Type 0 where
    pub on_read10 :
        (lba count buf : Bytes) (t : T)
        → length lba ≡ 4
        → length count ≡ 2
        → tr.command (0x28 ∷ 0 ∷ (lba ++ (0 ∷ (count ++ (0 ∷ []))))) (data_in buf) t
          ≡ returns (read (from_be_bytes lba) (from_be_bytes count) buf t)
    pub on_read16 :
        (lba count buf : Bytes) (t : T)
        → length lba ≡ 8
        → length count ≡ 4
        → tr.command (0x88 ∷ 0 ∷ (lba ++ (count ++ (0 ∷ 0 ∷ [])))) (data_in buf) t
          ≡ returns (read (from_be_bytes lba) (from_be_bytes count) buf t)
    pub on_write10 :
        (lba count buf : Bytes) (t : T)
        → length lba ≡ 4
        → length count ≡ 2
        → tr.command (0x2A ∷ 0 ∷ (lba ++ (0 ∷ (count ++ (0 ∷ []))))) (data_out buf) t
          ≡ returns (write (from_be_bytes lba) (from_be_bytes count) buf t)
    pub on_write16 :
        (lba count buf : Bytes) (t : T)
        → length lba ≡ 8
        → length count ≡ 4
        → tr.command (0x8A ∷ 0 ∷ (lba ++ (count ++ (0 ∷ 0 ∷ [])))) (data_out buf) t
          ≡ returns (write (from_be_bytes lba) (from_be_bytes count) buf t)

module _ {T E : Type 0} (tr : ScsiTransport T E) (read write : ℕ → ℕ → Bytes → T → Reply E × T)
    (disk : IsDisk tr read write) where
  -- What a block read makes of the disk's answer: a short transfer is an error.
  abbrev pub read_answer : Bytes → Reply E × T → Outcome (Result (Error E) Bytes × T)
  read_answer buf (reply, t) = elim reply.result [
    | ok n ↦
        (if ltb n (length buf)
          then returns (err protocol_error, t)
          else returns (ok reply.buffer, t))
    | err e ↦ as_err tr (try_upgrade_error tr e t)
  ]

  -- The count that a write reports is not looked at.
  abbrev pub write_answer : Reply E × T → Outcome (Result (Error E) (Unit {0}) × T)
  write_answer (reply, t) = elim reply.result [
    | ok n ↦ returns (ok tt, t)
    | err e ↦ as_err tr (try_upgrade_error tr e t)
  ]

  read10_lem :
      (lba count : ℕ) (buf : Bytes) (t : T)
      → lba < 2 ^ 32
      → count < 2 ^ 16
      → tr.command (read10 lba count) (data_in buf) t ≡ returns (read lba count buf t)
  unfolding read10
  read10_lem lba count buf t h k =
      disk.on_read10 (to_be_bytes 4 lba) (to_be_bytes 2 count) buf t (length-to_be_bytes 4 lba)
        (length-to_be_bytes 2 count)
      ∙ rw (from_be_bytes-to_be_bytes 4 lba h, from_be_bytes-to_be_bytes 2 count k)

  read16_lem :
      (lba count : ℕ) (buf : Bytes) (t : T)
      → lba < 2 ^ 64
      → count < 2 ^ 32
      → tr.command (read16 lba count) (data_in buf) t ≡ returns (read lba count buf t)
  unfolding read16
  read16_lem lba count buf t h k =
      disk.on_read16 (to_be_bytes 8 lba) (to_be_bytes 4 count) buf t (length-to_be_bytes 8 lba)
        (length-to_be_bytes 4 count)
      ∙ rw (from_be_bytes-to_be_bytes 8 lba h, from_be_bytes-to_be_bytes 4 count k)

  write10_lem :
      (lba count : ℕ) (buf : Bytes) (t : T)
      → lba < 2 ^ 32
      → count < 2 ^ 16
      → tr.command (write10 lba count) (data_out buf) t ≡ returns (write lba count buf t)
  unfolding write10
  write10_lem lba count buf t h k =
      disk.on_write10 (to_be_bytes 4 lba) (to_be_bytes 2 count) buf t (length-to_be_bytes 4 lba)
        (length-to_be_bytes 2 count)
      ∙ rw (from_be_bytes-to_be_bytes 4 lba h, from_be_bytes-to_be_bytes 2 count k)

  write16_lem :
      (lba count : ℕ) (buf : Bytes) (t : T)
      → lba < 2 ^ 64
      → count < 2 ^ 32
      → tr.command (write16 lba count) (data_out buf) t ≡ returns (write lba count buf t)
  unfolding write16
  write16_lem lba count buf t h k =
      disk.on_write16 (to_be_bytes 8 lba) (to_be_bytes 4 count) buf t (length-to_be_bytes 8 lba)
        (length-to_be_bytes 4 count)
      ∙ rw (from_be_bytes-to_be_bytes 8 lba h, from_be_bytes-to_be_bytes 4 count k)

  and_then-as_err :
      {A B : Type 0} (f : A → Scsi T E B) (x : Outcome (Error E × T))
      → and_then f (as_err tr x) ≡ as_err tr x
  and_then-as_err f panics = refl
  and_then-as_err f (returns (e, t)) = refl

  -- The check of the count behind a read, after any answer.
  abbrev check_count : Bytes → ℕ × Bytes → Scsi T E Bytes
  check_count buf r = if ltb r.0 (length buf) then fail protocol_error else ret r.1

  check_read :
      (buf : Bytes) (res : Result (Error E) ℕ) (left : Bytes) (t : T)
      → and_then (check_count buf) (issued tr res left t)
        ≡ read_answer buf (record { result = res; buffer = left }, t)
  check_read buf (ok n) left t = elim (Bool-cases (ltb n (length buf))) [
    | inl q ↦ rw q
    | inr q ↦ rw q
  ]
  check_read buf (err e) left t = and_then-as_err (check_count buf) (try_upgrade_error tr e t)

  drop_count :
      (res : Result (Error E) ℕ) (left : Bytes) (t : T)
      → and_then (λ sz. ret tt) (and_then (λ r. ret r.0) (issued tr res left t))
        ≡ write_answer (record { result = res; buffer = left }, t)
  drop_count (ok n) left t = refl
  drop_count (err e) left t =
      ap (and_then (λ sz. ret tt)) (and_then-as_err (λ r. ret r.0) (try_upgrade_error tr e t))
      ∙ and_then-as_err (λ sz. ret tt) (try_upgrade_error tr e t)

  -- Over a disk that carries out READ(10) and READ(16) as the SCSI standard says, and for a range
  -- that ends below 2 ^ 64 with a count below 2 ^ 32, `read_blocks` is one read of the disk at that
  -- offset and count: neither the choice between the commands nor the casts to the narrow fields
  -- shows.
  pub read_blocks_lem :
      (offset count : ℕ) (buf : Bytes) (t : T)
      → offset + count < 2 ^ 64
      → count < 2 ^ 32
      → read_blocks tr offset count buf t ≡ read_answer buf (read offset count buf t)
  unfolding read_blocks read_10 read_16 issue
  read_blocks_lem offset count buf t h k =
      let inside : ltb (offset + count) (2 ^ 64) ≡ true = ground arith in
      elim (Bool-cases (fits_10 (offset + count) count)) [
        | inl q ↦
            let o : offset % 2 ^ 32 ≡ offset = ground arith in
            let c : count % 2 ^ 16 ≡ count = ground arith in
            rw (inside, q, o, c, read10_lem offset count buf t (ground arith) (ground arith))
              (check_read buf _ _ _)
        | inr q ↦
            rw (inside, q, read16_lem offset count buf t (ground arith) k) (check_read buf _ _ _)
      ]

  -- Over such a disk and for the same ranges, `write_blocks` is one write of the disk at that
  -- offset and count.
  pub write_blocks_lem :
      (offset count : ℕ) (buf : Bytes) (t : T)
      → offset + count < 2 ^ 64
      → count < 2 ^ 32
      → write_blocks tr offset count buf t ≡ write_answer (write offset count buf t)
  unfolding write_blocks write_10 write_16 issue
  write_blocks_lem offset count buf t h k =
      let inside : ltb (offset + count) (2 ^ 64) ≡ true = ground arith in
      elim (Bool-cases (fits_10 (offset + count) count)) [
        | inl q ↦
            let o : offset % 2 ^ 32 ≡ offset = ground arith in
            let c : count % 2 ^ 16 ≡ count = ground arith in
            rw (inside, q, o, c, write10_lem offset count buf t (ground arith) (ground arith))
              (drop_count _ _ _)
        | inr q ↦ rw (inside, q, write16_lem offset count buf t (ground arith) k) (drop_count _ _ _)
      ]
