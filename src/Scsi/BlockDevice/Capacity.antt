-- ===== src/Scsi/BlockDevice/Capacity.antt =====
-- cotton-scsi/src/scsi_block_device.rs: the capacity that `device_info` reports.
use cotton.Prelude.{
  ℕ, ◌^◌, ◌<◌, ◌≡◌, inl, inr, false, ◌++◌, replicate, ltb, ◌==◌, if◌then◌else◌, Bool-cases, min,
  arith,
}
use cotton.Prelude.Bytes.{Bytes, to_be_bytes, from_be_bytes-to_be_bytes}
use cotton.Prelude.Outcome.{returns}
use cotton.Prelude.Result.{ok}
use cotton.Scsi.Transport.{data_in, ScsiTransport}
use cotton.Scsi.Commands.{read_capacity10, read_capacity16}
use cotton.Scsi.Device.{issue, command_response, read_capacity_10, read_capacity_16}
use cotton.Scsi.BlockDevice.{device_info}

module _ {T E : Type 0} where
  -- What the SCSI standard says of a disk whose last block is `last`: READ CAPACITY (10) returns the
  -- address of the last block, or all ones if that does not fit; READ CAPACITY (16) always fits.
  pub record HasCapacity (tr : ScsiTransport T E) (last size : ℕ) (t10 t16 : T → T) : Type 0 where
    pub on_capacity10 :
        (buf : Bytes) (t : T)
        → tr.command read_capacity10 (data_in buf) t
          ≡ returns (
            record {
              result = ok 8;
              buffer = to_be_bytes 4 (min last 0xFFFF_FFFF) ++ to_be_bytes 4 size;
            },
            t10 t,
          )
    pub on_capacity16 :
        (buf : Bytes) (t : T)
        → tr.command read_capacity16 (data_in buf) t
          ≡ returns (
            record {
              result = ok 32;
              buffer = to_be_bytes 8 last ++ (to_be_bytes 4 size ++ replicate 20 0);
            },
            t16 t,
          )

module _ {T E : Type 0} (tr : ScsiTransport T E) (last size : ℕ) (t10 t16 : T → T)
    (disk : HasCapacity tr last size t10 t16) where
  read_capacity_10_lem :
      (t : T)
      → size < 2 ^ 32
      → read_capacity_10 tr t ≡ returns (ok (min last 0xFFFF_FFFF, size), t10 t)
  unfolding read_capacity_10 command_response issue
  read_capacity_10_lem t h = rw (disk.on_capacity10 (replicate 8 0) t) (
      ground (
        arith,
        from_be_bytes-to_be_bytes 4 (min last 0xFFFF_FFFF) (omega arith),
        from_be_bytes-to_be_bytes 4 size h,
      ))

  read_capacity_16_lem :
      (t : T)
      → last < 2 ^ 64
      → size < 2 ^ 32
      → read_capacity_16 tr t ≡ returns (ok (last, size), t16 t)
  unfolding read_capacity_16 command_response issue
  read_capacity_16_lem t l h =
      rw (disk.on_capacity16 (replicate 32 0) t)
        (ground (arith, from_be_bytes-to_be_bytes 8 last l, from_be_bytes-to_be_bytes 4 size h))

  -- Over a device whose capacity replies carry the address of its last block and the block size,
  -- below 2 ^ 64 and 2 ^ 32, `device_info` reports that address itself as the number of blocks, and
  -- sends READ CAPACITY (16) exactly if the address does not fit READ CAPACITY (10).
  pub device_info_lem :
      (t : T)
      → last < 2 ^ 64
      → size < 2 ^ 32
      → (t' : T) × (device_info tr t
          ≡ returns (ok (record { blocks = last; block_size = size }), t'))
        × (t' ≡ (if ltb last 0xFFFF_FFFF then t10 t else t16 (t10 t)))
  unfolding device_info
  device_info_lem t l h = elim (Bool-cases (ltb last 0xFFFF_FFFF)) [
    | inl q ↦
        let small : min last 0xFFFF_FFFF ≡ last = ground arith in
        let differs : (last == 0xFFFF_FFFF) ≡ false = ground arith in
        (t10 t, rw (read_capacity_10_lem t h, small, differs), rw q)
    | inr q ↦
        let large : min last 0xFFFF_FFFF ≡ 0xFFFF_FFFF = ground arith in
        (t16 (t10 t), rw (read_capacity_10_lem t h, large, read_capacity_16_lem (t10 t) l h), rw q)
  ]
