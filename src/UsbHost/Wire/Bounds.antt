-- ===== src/UsbHost/Wire/Bounds.antt =====
-- cotton-usb-host/src/wire.rs: `parse_descriptors` on any bytes at all.
use cotton.Prelude.{
  ℕ, zero, suc, ◌+◌, ◌-◌, ◌<◌, ◌≡◌, inl, inr, true, ◌||◌, some, length, take, drop, get_or,
  get_elem?-get_or, ltb, leb, Bool-cases, arith,
}
use cotton.Prelude.Bytes.{Bytes}
use cotton.Prelude.Outcome.{returns}
use cotton.UsbHost.Wire.{DescriptorVisitor, index_at, visit, parse_from, parse_descriptors}

pub index_at_lem :
    (buf : Bytes) (i : ℕ) → i < length buf → index_at buf i ≡ returns (get_or buf i 0)
index_at_lem buf i h = rw (index_at, get_elem?-get_or buf i 0 h)

module _ {V : Type 0} (visitor : DescriptorVisitor V) where
  -- With fuel for the bytes left the loop ends; it reads no byte out of range.
  parse_from_returns :
      (fuel : ℕ) (buf : Bytes) (index : ℕ) (v : V)
      → length buf - index < fuel
      → (v' : V) × (parse_from visitor fuel buf index v ≡ returns (some v'))
  unfolding parse_from
  parse_from_returns zero buf index v h = elim h [ ]
  parse_from_returns (suc fuel) buf index v h = elim (Bool-cases (ltb (index + 2) (length buf))) [
    | inr q ↦ (v, rw q)
    | inl q ↦
        let dlen : ℕ = get_or buf index 0 in
        let dtype : ℕ = get_or buf (index + 1) 0 in
        elim (Bool-cases (ltb dlen 2 || ltb (length buf) (index + dlen))) [
          | inl stop ↦ (
            v,
            rw (
              q,
              index_at_lem buf index (ground arith),
              index_at_lem buf (index + 1) (ground arith),
              stop,
            ),
          )
          | inr go ↦
              let fits : leb (index + dlen) (length buf) ≡ true = ground arith in
              let (v', e) =
                parse_from_returns fuel buf (index + dlen)
                  (visit visitor dtype (take dlen (drop index buf)) v) (ground arith) in
              (
                v',
                rw
                    (
                      q,
                      index_at_lem buf index (ground arith),
                      index_at_lem buf (index + 1) (ground arith),
                      go,
                      fits,
                    )
                    e,
              )
        ]
  ]

  -- `parse_descriptors` never panics and always ends, whatever bytes the device sent.
  pub parse_descriptors_returns :
      (buf : Bytes) (v : V) → (v' : V) × (parse_descriptors visitor buf v ≡ returns (some v'))
  unfolding parse_descriptors
  parse_descriptors_returns buf v = parse_from_returns (suc (length buf)) buf 0 v (omega arith)
