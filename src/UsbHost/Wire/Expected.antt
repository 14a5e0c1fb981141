-- ===== src/UsbHost/Wire/Expected.antt =====
-- cotton-usb-host/src/wire.rs: descriptors as bytes, and the call that each of them should make.
use cotton.Prelude.{
  ℕ, ◌+◌, ◌<◌, ◌≡◌, refl, Bool-cases, inl, inr, List, [], ◌∷◌, ◌++◌, length, ◌==◌, if◌then◌else◌,
  arith,
}
use cotton.Prelude.Bytes.{Bytes}
use cotton.UsbHost.Wire.Descriptors.{
  configuration_from_bytes, interface_from_bytes, endpoint_from_bytes,
}
use cotton.UsbHost.Wire.{DescriptorVisitor, visit}

-- A descriptor: its type, and what follows the two bytes of length and type.
pub record Descriptor : Type 0 where
  pub type_code : ℕ
  pub body : Bytes

abbrev pub encode : Descriptor → Bytes
encode d = (2 + length d.body) ∷ d.type_code ∷ d.body

abbrev pub encode_all : List Descriptor → Bytes
encode_all [] = []
encode_all (d ∷ ds) = encode d ++ encode_all ds

pub size-encode : (d : Descriptor) → 2 + length d.body ≡ length (encode d)
size-encode d = omega arith

-- Each descriptor has a byte or more behind its type.
abbrev pub HaveBodies : List Descriptor → Type 0
HaveBodies [] = Unit
HaveBodies (d ∷ ds) = (0 < length d.body) × HaveBodies ds

module _ {V : Type 0} (visitor : DescriptorVisitor V) where
  open visitor use {on_configuration, on_interface, on_endpoint, on_other}

  -- What a reader of the standard expects of a configuration descriptor, of 9 bytes; of an interface
  -- descriptor, of 9 bytes; and of an endpoint descriptor, of 7 bytes. One of another size is passed
  -- over.
  abbrev pub expect_configuration : Bytes → V → V
  expect_configuration
        (length_low ∷ length_high ∷ num_interfaces ∷ value ∷ name ∷ attributes ∷ power ∷ []) v =
      on_configuration
        (record {
          b_length = 9;
          b_descriptor_type = 2;
          w_total_length = (length_low, length_high);
          b_num_interfaces = num_interfaces;
          b_configuration_value = value;
          i_configuration = name;
          bm_attributes = attributes;
          b_max_power = power;
        })
        v
  expect_configuration _ v = v

  abbrev pub expect_interface : Bytes → V → V
  expect_interface (number ∷ alternate ∷ num_endpoints ∷ class ∷ sub_class ∷ protocol ∷ name ∷ [])
        v =
      on_interface
        (record {
          b_length = 9;
          b_descriptor_type = 4;
          b_interface_number = number;
          b_alternate_setting = alternate;
          b_num_endpoints = num_endpoints;
          b_interface_class = class;
          b_interface_sub_class = sub_class;
          b_interface_protocol = protocol;
          i_interface = name;
        })
        v
  expect_interface _ v = v

  abbrev pub expect_endpoint : Bytes → V → V
  expect_endpoint (address ∷ attributes ∷ size_low ∷ size_high ∷ interval ∷ []) v =
      on_endpoint
        (record {
          b_length = 7;
          b_descriptor_type = 5;
          b_endpoint_address = address;
          bm_attributes = attributes;
          w_max_packet_size = (size_low, size_high);
          b_interval = interval;
        })
        v
  expect_endpoint _ v = v

  -- The call that is expected for one descriptor, by its type.
  abbrev pub expect : ℕ → Bytes → V → V
  expect type_code body v =
      if type_code == 2
      then expect_configuration body v
      else if type_code == 4
      then expect_interface body v
      else if type_code == 5
      then expect_endpoint body v
      else on_other ((2 + length body) ∷ type_code ∷ body) v

  -- The calls that a reader of the standard expects, in order.
  abbrev pub visit_all : List Descriptor → V → V
  visit_all [] v = v
  visit_all (d ∷ ds) v = visit_all ds (expect d.type_code d.body v)

  visit_configuration-expect :
      (body : Bytes) (v : V)
      → visit visitor 2 ((2 + length body) ∷ 2 ∷ body) v ≡ expect_configuration body v
  unfolding visit configuration_from_bytes
  visit_configuration-expect [] v = refl
  visit_configuration-expect (a ∷ []) v = refl
  visit_configuration-expect (a ∷ b ∷ []) v = refl
  visit_configuration-expect (a ∷ b ∷ c ∷ []) v = refl
  visit_configuration-expect (a ∷ b ∷ c ∷ d ∷ []) v = refl
  visit_configuration-expect (a ∷ b ∷ c ∷ d ∷ e ∷ []) v = refl
  visit_configuration-expect (a ∷ b ∷ c ∷ d ∷ e ∷ f ∷ []) v = refl
  visit_configuration-expect (a ∷ b ∷ c ∷ d ∷ e ∷ f ∷ g ∷ []) v = refl
  visit_configuration-expect (a ∷ b ∷ c ∷ d ∷ e ∷ f ∷ g ∷ more ∷ rest) v = refl

  visit_interface-expect :
      (body : Bytes) (v : V)
      → visit visitor 4 ((2 + length body) ∷ 4 ∷ body) v ≡ expect_interface body v
  unfolding visit interface_from_bytes
  visit_interface-expect [] v = refl
  visit_interface-expect (a ∷ []) v = refl
  visit_interface-expect (a ∷ b ∷ []) v = refl
  visit_interface-expect (a ∷ b ∷ c ∷ []) v = refl
  visit_interface-expect (a ∷ b ∷ c ∷ d ∷ []) v = refl
  visit_interface-expect (a ∷ b ∷ c ∷ d ∷ e ∷ []) v = refl
  visit_interface-expect (a ∷ b ∷ c ∷ d ∷ e ∷ f ∷ []) v = refl
  visit_interface-expect (a ∷ b ∷ c ∷ d ∷ e ∷ f ∷ g ∷ []) v = refl
  visit_interface-expect (a ∷ b ∷ c ∷ d ∷ e ∷ f ∷ g ∷ more ∷ rest) v = refl

  visit_endpoint-expect :
      (body : Bytes) (v : V)
      → visit visitor 5 ((2 + length body) ∷ 5 ∷ body) v ≡ expect_endpoint body v
  unfolding visit endpoint_from_bytes
  visit_endpoint-expect [] v = refl
  visit_endpoint-expect (a ∷ []) v = refl
  visit_endpoint-expect (a ∷ b ∷ []) v = refl
  visit_endpoint-expect (a ∷ b ∷ c ∷ []) v = refl
  visit_endpoint-expect (a ∷ b ∷ c ∷ d ∷ []) v = refl
  visit_endpoint-expect (a ∷ b ∷ c ∷ d ∷ e ∷ []) v = refl
  visit_endpoint-expect (a ∷ b ∷ c ∷ d ∷ e ∷ more ∷ rest) v = refl

  -- What the loop does with a descriptor is what is expected.
  pub visit-expect :
      (d : Descriptor) (v : V)
      → visit visitor d.type_code (encode d) v ≡ expect d.type_code d.body v
  unfolding visit
  visit-expect d v = elim (Bool-cases (d.type_code == 2)) [
    | inl q ↦ let e : d.type_code ≡ 2 = ground arith in rw e (visit_configuration-expect d.body v)
    | inr not_2 ↦ elim (Bool-cases (d.type_code == 4)) [
      | inl q ↦ let e : d.type_code ≡ 4 = ground arith in rw e (visit_interface-expect d.body v)
      | inr not_4 ↦ elim (Bool-cases (d.type_code == 5)) [
        | inl q ↦ let e : d.type_code ≡ 5 = ground arith in rw e (visit_endpoint-expect d.body v)
        | inr not_5 ↦ rw (not_2, not_4, not_5) refl
      ]
    ]
  ]
