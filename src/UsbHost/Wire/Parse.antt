-- ===== src/UsbHost/Wire/Parse.antt =====
-- cotton-usb-host/src/wire.rs: what the visitor is told of a well-formed sequence of descriptors.
use cotton.Prelude.{
  ℕ, zero, suc, ◌+◌, ◌-◌, ◌≤◌, ◌<◌, ◌≡◌, refl, sym, ◌∙◌, ap, true, false, ◌||◌, some, List, [], ◌∷◌,
  ◌++◌, append_assoc, append-nil, length, get_elem?, take, drop, length-append, length-drop,
  get_elem?-drop, drop-drop, take-append, drop-append, ltb, leb, arith,
}
use cotton.Prelude.Bytes.{Bytes}
use cotton.Prelude.Outcome.{returns}
use cotton.UsbHost.Wire.Expected.{
  Descriptor, encode, encode_all, size-encode, HaveBodies, expect, visit_all, visit-expect,
}
use cotton.UsbHost.Wire.{DescriptorVisitor, index_at, parse_from, parse_descriptors}

module _ {V : Type 0} (visitor : DescriptorVisitor V) where
  parse_from_stops :
      (fuel : ℕ) (buf : Bytes) (index : ℕ) (v : V)
      → length (drop index buf) ≤ 2
      → parse_from visitor (suc fuel) buf index v ≡ returns (some v)
  unfolding parse_from
  parse_from_stops fuel buf index v h =
      let q : ltb (index + 2) (length buf) ≡ false = ground (arith, length-drop index buf) in rw q

  parse_from_step :
      (fuel : ℕ) (buf : Bytes) (index : ℕ) (v : V) (d : Descriptor) (rest : Bytes)
      → drop index buf ≡ encode d ++ rest
      → 0 < length d.body
      → parse_from visitor (suc fuel) buf index v
        ≡ parse_from visitor fuel buf
            (index + (2 + length d.body))
            (expect visitor d.type_code d.body v)
  unfolding parse_from
  parse_from_step fuel buf index v d rest e h =
      let len : length buf - index ≡ 2 + length d.body + length rest =
        sym (length-drop index buf) ∙ ap length e ∙ omega (arith, length-append {0} d.body rest) in
      let q : ltb (index + 2) (length buf) ≡ true = ground arith in
      let first : get_elem? buf index ≡ some (2 + length d.body) =
        ap (get_elem? buf) (omega arith)
        ∙ sym (get_elem?-drop index buf 0)
        ∙ ap (λ l. get_elem? l 0) e in
      let second : get_elem? buf (index + 1) ≡ some d.type_code =
        sym (get_elem?-drop index buf 1) ∙ ap (λ l. get_elem? l 1) e in
      let go : (ltb (2 + length d.body) 2 || ltb (length buf) (index + (2 + length d.body)))
          ≡ false =
        ground arith in
      let fits : leb (index + (2 + length d.body)) (length buf) ≡ true = ground arith in
      let slice : take (2 + length d.body) (drop index buf) ≡ encode d =
        ap (take (2 + length d.body)) e
        ∙ ap (λ (k : ℕ). take k (encode d ++ rest)) (size-encode d)
        ∙ take-append (encode d) rest in
      rw (q, index_at, first, second, go, fits, slice, visit-expect visitor d v)

  parse_from-encode_all :
      (ds : List Descriptor) (tail : Bytes) (fuel : ℕ) (buf : Bytes) (index : ℕ) (v : V)
      → drop index buf ≡ encode_all ds ++ tail
      → HaveBodies ds
      → length tail ≤ 2
      → length (drop index buf) < fuel
      → parse_from visitor fuel buf index v ≡ returns (some (visit_all visitor ds v))
  parse_from-encode_all ds tail zero buf index v e b t f = elim f [ ]
  parse_from-encode_all [] tail (suc fuel) buf index v e b t f =
      parse_from_stops fuel buf index v (omega (arith, ap length e))
  parse_from-encode_all (d ∷ ds) tail (suc fuel) buf index v e b t f =
      let e' : drop index buf ≡ encode d ++ (encode_all ds ++ tail) =
        e ∙ append_assoc (encode d) (encode_all ds) tail in
      let after : drop (index + (2 + length d.body)) buf ≡ encode_all ds ++ tail =
        sym (drop-drop (2 + length d.body) index buf)
        ∙ ap (drop (2 + length d.body)) e'
        ∙ ap (λ (k : ℕ). drop k (encode d ++ (encode_all ds ++ tail))) (size-encode d)
        ∙ drop-append (encode d) (encode_all ds ++ tail) in
      parse_from_step fuel buf index v d (encode_all ds ++ tail) e' b.0
      ∙ parse_from-encode_all ds tail fuel buf (index + (2 + length d.body)) _ after b.1 t (
          omega (
            arith,
            ap length after,
            ap length e',
            length-append {0} d.body (encode_all ds ++ tail),
          ))

  -- Descriptors that all have a body, each written with its length and type in front, are reported
  -- whole and in order: a configuration or interface descriptor of 9 bytes and an endpoint descriptor
  -- of 7 bytes by the call for its type, with the fields at their places; one of these types with
  -- another size by no call; and one of any other type by a call with its bytes.
  pub parse_descriptors-encode_all :
      (ds : List Descriptor) (v : V)
      → HaveBodies ds
      → parse_descriptors visitor (encode_all ds) v ≡ returns (some (visit_all visitor ds v))
  unfolding parse_descriptors
  parse_descriptors-encode_all ds v b =
      parse_from-encode_all ds [] (suc (length (encode_all ds))) (encode_all ds) 0 v
        (sym (append-nil (encode_all ds))) b (omega arith) (omega arith)

  -- A descriptor of two bytes at the very end, after descriptors that all have a body, is not
  -- reported: the loop stops with two bytes unread.
  pub parse_descriptors_drops_last :
      (ds : List Descriptor) (type_code : ℕ) (v : V)
      → HaveBodies ds
      → parse_descriptors visitor
          (encode_all ds ++ encode (record { type_code = type_code; body = [] }))
          v
        ≡ returns (some (visit_all visitor ds v))
  unfolding parse_descriptors
  parse_descriptors_drops_last ds type_code v b =
      let buf : Bytes = encode_all ds ++ encode (record { type_code = type_code; body = [] }) in
      parse_from-encode_all ds (encode (record { type_code = type_code; body = [] }))
        (suc (length buf)) buf 0 v refl b (omega arith) (omega arith)
