-- ===== src/UsbHost/Wire/Tests.antt =====
-- cotton-usb-host/src/wire.rs: a device with one interface and one endpoint.
use cotton.Prelude.{ℕ, ◌+◌, ◌≡◌, refl, some, List, [], ◌∷◌, ◌++◌, arith}
use cotton.Prelude.Outcome.{returns}
use cotton.UsbHost.Wire.{DescriptorVisitor, visit, parse_from, parse_descriptors}
use cotton.UsbHost.Wire.Descriptors.{
  configuration_from_bytes, interface_from_bytes, endpoint_from_bytes,
}
use cotton.UsbHost.Wire.Bounds.{parse_descriptors_returns}
use cotton.UsbHost.Wire.Expected.{Descriptor, encode, encode_all, visit_all}
use cotton.UsbHost.Wire.Parse.{parse_descriptors-encode_all, parse_descriptors_drops_last}

-- Notes which calls were made.
abbrev recorder : DescriptorVisitor (List ℕ)
recorder = record {
  on_configuration = λ c l. c.b_configuration_value ∷ l;
  on_interface = λ i l. (100 + i.b_interface_class) ∷ l;
  on_endpoint = λ e l. (200 + e.b_endpoint_address) ∷ l;
  on_other = λ d l. 999 ∷ l;
}

abbrev storage : List Descriptor
storage =
    record { type_code = 2; body = 25 ∷ 0 ∷ 1 ∷ 1 ∷ 0 ∷ 0x80 ∷ 50 ∷ [] }
    ∷ record { type_code = 4; body = 0 ∷ 0 ∷ 1 ∷ 8 ∷ 6 ∷ 0x50 ∷ 0 ∷ [] }
    ∷ record { type_code = 5; body = 1 ∷ 2 ∷ 64 ∷ 0 ∷ 0 ∷ [] }
    ∷ record { type_code = 33; body = 7 ∷ [] }
    ∷ []

parses :
    parse_descriptors recorder (encode_all storage) [] ≡ returns (some (999 ∷ 201 ∷ 108 ∷ 1 ∷ []))
unfolding parse_descriptors parse_from visit configuration_from_bytes interface_from_bytes
    endpoint_from_bytes
parses = refl

parse_descriptors-encode_all_example :
    parse_descriptors recorder (encode_all storage) []
    ≡ returns (some (visit_all recorder storage []))
parse_descriptors-encode_all_example =
    parse_descriptors-encode_all recorder storage [] (omega arith)

parse_descriptors_drops_last_example :
    parse_descriptors recorder
      (encode_all storage ++ encode (record { type_code = 48; body = [] }))
      []
    ≡ returns (some (visit_all recorder storage []))
parse_descriptors_drops_last_example =
    parse_descriptors_drops_last recorder storage 48 [] (omega arith)

parse_descriptors_returns_example :
    (v' : List ℕ) × (parse_descriptors recorder (9 ∷ 2 ∷ 0 ∷ []) [] ≡ returns (some v'))
parse_descriptors_returns_example = parse_descriptors_returns recorder (9 ∷ 2 ∷ 0 ∷ []) []
