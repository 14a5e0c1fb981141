-- ===== src/Scsi/BlockDevice/Tests.antt =====
-- cotton-scsi: a disk in memory, with a block of one byte, behind the transport's interface.
use cotton.Prelude.{
  ℕ, ◌+◌, ◌-◌, ◌^◌, ◌≤◌, ◌≡◌, refl, subst, [], ◌∷◌, ◌++◌, length, take, drop, replicate, take_exact,
  drop_exact, min, ltb, ◌==◌, if◌then◌else◌, arith,
}
use cotton.Prelude.Bytes.{Bytes, from_be_bytes, to_be_bytes}
use cotton.Prelude.Outcome.{Outcome, returns, panics}
use cotton.Prelude.Result.{ok, err}
use cotton.Scsi.Transport.{
  command_failed, scsi, DataPhase, data_in, data_out, Reply, ScsiTransport, ScsiError,
}
use cotton.Scsi.Commands.{read_capacity10, read_capacity16, read10, request_sense_command}
use cotton.Scsi.Sense.{RequestSenseReply, classify, sense_from_bytes, find3}
use cotton.Scsi.Device.{issue, try_upgrade_error, request_sense, read_10}
use cotton.Scsi.Device.Requests.{length-read10}
use cotton.Scsi.Device.Errors.{IsHonest, Ends, issue-Ends}
use cotton.Scsi.Device.Peripheral.{code, transmute, code-transmute}
use cotton.Scsi.BlockDevice.{read_blocks, write_blocks, device_info}
use cotton.Scsi.BlockDevice.Refine.{
  IsDisk, read_answer, write_answer, read_blocks_lem, write_blocks_lem,
}
use cotton.Scsi.BlockDevice.Capacity.{HasCapacity, device_info_lem}

abbrev Answer : Type 0
Answer = Reply (Unit {0}) × Bytes

abbrev read : ℕ → ℕ → Bytes → Bytes → Answer
read lba count buf memory = (
  record {
    result = ok (length (take count (drop lba memory)));
    buffer = take count (drop lba memory);
  },
  memory,
)

abbrev write : ℕ → ℕ → Bytes → Bytes → Answer
write lba count buf memory = (
  record { result = ok count; buffer = [] },
  take lba memory ++ (buf ++ drop (lba + count) memory),
)

-- Any command but READ and WRITE fails.
abbrev answer : Bytes → DataPhase → Bytes → Answer
answer (op ∷ flags ∷ rest) (data_in buf) memory =
    if op == 0x28
    then read (from_be_bytes (take 4 rest)) (from_be_bytes (take 2 (drop 1 (drop 4 rest)))) buf
        memory
    else if op == 0x88
    then read (from_be_bytes (take 8 rest)) (from_be_bytes (take 4 (drop 8 rest))) buf memory
    else (record { result = err command_failed; buffer = [] }, memory)
answer (op ∷ flags ∷ rest) (data_out buf) memory =
    if op == 0x2A
    then write (from_be_bytes (take 4 rest)) (from_be_bytes (take 2 (drop 1 (drop 4 rest)))) buf
        memory
    else if op == 0x8A
    then write (from_be_bytes (take 8 rest)) (from_be_bytes (take 4 (drop 8 rest))) buf memory
    else (record { result = err command_failed; buffer = [] }, memory)
answer _ _ memory = (record { result = err command_failed; buffer = [] }, memory)

abbrev disk : ScsiTransport Bytes (Unit {0})
disk = record { command = λ cmd phase t. returns (answer cmd phase t) }

disk-IsDisk : IsDisk disk read write
disk-IsDisk = record {
  on_read10 = λ lba count buf t h k. rw (
    take_exact 4 lba (0 ∷ (count ++ (0 ∷ []))) h,
    drop_exact 4 lba (0 ∷ (count ++ (0 ∷ []))) h,
    take_exact 2 count (0 ∷ []) k,
  );
  on_read16 = λ lba count buf t h k. rw (
    take_exact 8 lba (count ++ (0 ∷ 0 ∷ [])) h,
    drop_exact 8 lba (count ++ (0 ∷ 0 ∷ [])) h,
    take_exact 4 count (0 ∷ 0 ∷ []) k,
  );
  on_write10 = λ lba count buf t h k. rw (
    take_exact 4 lba (0 ∷ (count ++ (0 ∷ []))) h,
    drop_exact 4 lba (0 ∷ (count ++ (0 ∷ []))) h,
    take_exact 2 count (0 ∷ []) k,
  );
  on_write16 = λ lba count buf t h k. rw (
    take_exact 8 lba (count ++ (0 ∷ 0 ∷ [])) h,
    drop_exact 8 lba (count ++ (0 ∷ 0 ∷ [])) h,
    take_exact 4 count (0 ∷ 0 ∷ []) k,
  );
}

abbrev memory : Bytes
memory = 10 ∷ 11 ∷ 12 ∷ 13 ∷ []

reads : read_blocks disk 1 2 (0 ∷ 0 ∷ []) memory ≡ returns (ok (11 ∷ 12 ∷ []), memory)
unfolding read_blocks read_10 issue read10
reads = refl

read_blocks_lem_example :
    read_blocks disk 1 2 (0 ∷ 0 ∷ []) memory
    ≡ read_answer disk read write disk-IsDisk (0 ∷ 0 ∷ []) (read 1 2 (0 ∷ 0 ∷ []) memory)
read_blocks_lem_example =
    read_blocks_lem disk read write disk-IsDisk 1 2 (0 ∷ 0 ∷ []) memory (omega arith) (omega arith)

write_blocks_lem_example :
    write_blocks disk 1 70000 (7 ∷ 7 ∷ []) memory
    ≡ write_answer disk read write disk-IsDisk (write 1 70000 (7 ∷ 7 ∷ []) memory)
write_blocks_lem_example =
    write_blocks_lem disk read write disk-IsDisk 1 70000 (7 ∷ 7 ∷ []) memory (omega arith)
      (omega arith)

-- A disk of 2 ^ 33 blocks, which counts its commands.
abbrev big : ScsiTransport ℕ (Unit {0})
big = record {
  command = λ cmd phase t. returns (elim cmd [
    | [] ↦ (record { result = err command_failed; buffer = [] }, t)
    | op ∷ _ ↦
        (if op == 0x25
          then (
            record {
              result = ok 8;
              buffer = to_be_bytes 4 (min (2 ^ 33 - 1) 0xFFFF_FFFF) ++ to_be_bytes 4 512;
            },
            t + 1,
          )
          else (
            record {
              result = ok 32;
              buffer = to_be_bytes 8 (2 ^ 33 - 1) ++ (to_be_bytes 4 512 ++ replicate 20 0);
            },
            t + 1,
          ))
  ]);
}

big-HasCapacity : HasCapacity big (2 ^ 33 - 1) 512 (λ t. t + 1) (λ t. t + 1)
unfolding read_capacity10 read_capacity16
big-HasCapacity = record { on_capacity10 = λ buf t. refl; on_capacity16 = λ buf t. refl }

device_info_lem_example :
    (t' : ℕ) × (device_info big 0
      ≡ returns (ok (record { blocks = 2 ^ 33 - 1; block_size = 512 }), t'))
    × (t' ≡ (if ltb (2 ^ 33 - 1) 0xFFFF_FFFF then 0 + 1 else 0 + 1 + 1))
device_info_lem_example =
    device_info_lem big (2 ^ 33 - 1) 512 (λ t. t + 1) (λ t. t + 1) big-HasCapacity 0 (omega arith)
      (omega arith)

-- A device that is becoming ready: each command but REQUEST SENSE fails.
abbrev sense_data : Bytes
sense_data = 0x70 ∷ 0 ∷ 2 ∷ 0 ∷ 0 ∷ 0 ∷ 0 ∷ 10 ∷ 0 ∷ 0 ∷ 0 ∷ 0 ∷ 4 ∷ 1 ∷ 0 ∷ 0 ∷ 0 ∷ 0 ∷ []

abbrev waking_answer : Bytes → Reply (Unit {0})
waking_answer [] = record { result = err command_failed; buffer = [] }
waking_answer (op ∷ _) =
    if op == 3
    then record { result = ok 18; buffer = sense_data }
    else record { result = err command_failed; buffer = [] }

abbrev waking : ScsiTransport ℕ (Unit {0})
waking = record { command = λ cmd phase t. returns (waking_answer cmd, t + 1) }

abbrev Fits : Outcome (Reply (Unit {0}) × ℕ) → ℕ → Type 0
Fits panics n = Unit
Fits (returns (reply, t)) n = reply.result ≡ ok n → n ≤ length reply.buffer

waking-IsHonest : IsHonest waking
waking-IsHonest = record {
  replies = λ cmd phase t h. (waking_answer cmd, t + 1, refl);
  within = λ cmd buf t reply t' n h e. subst (λ x. Fits x n) h (within cmd n) e;
}
  where
    within :
        (cmd : Bytes) (n : ℕ)
        → (waking_answer cmd).result ≡ ok n
        → n ≤ length (waking_answer cmd).buffer
    within [] n e = cc
    within (op ∷ cmd) n e = ground arith

becoming_ready :
    issue waking (read10 0 1) (data_in (0 ∷ [])) 0
    ≡ returns (err (scsi ScsiError.becoming_ready), 2)
unfolding issue try_upgrade_error request_sense read10 request_sense_command sense_from_bytes
    classify find3
becoming_ready = refl

issue-Ends_example :
    Ends waking (read10 0 1) (data_in (0 ∷ [])) 0 (issue waking (read10 0 1) (data_in (0 ∷ [])) 0)
issue-Ends_example =
    issue-Ends waking waking-IsHonest (read10 0 1) (data_in (0 ∷ [])) 0
      (omega (arith, length-read10 0 1))

illegal : RequestSenseReply
illegal = record {
  sense_key = 5;
  additional_sense_code = 0x99;
  additional_sense_code_qualifier = 0;
}

last_code : code (transmute 0x1F) ≡ 0x1F
last_code = code-transmute 0x1F (omega arith)
