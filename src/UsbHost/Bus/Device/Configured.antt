-- ===== src/UsbHost/Bus/Device/Configured.antt =====
-- cotton-usb-host/src/usb_bus.rs: the endpoints that the visitor of a configuration collects.
use cotton.Prelude.{
  ℕ, ◌^◌, ◌/◌, ◌%◌, ◌≡◌, refl, sym, subst, ◌∙◌, Bool, true, false, ◌&&◌, ◌||◌, Bool-cases, inl, inr,
  List, [], ◌∷◌, bit_and, bit_or, ◌==◌, if◌then◌else◌, arith,
}
use cotton.Prelude.Bits.{bit, bit-lt-two, bit-bit_or, bit-two_pow, bit_and_fifteen, bit_and_highest}
use cotton.Prelude.Bytes.{Bytes}
use cotton.UsbHost.Wire.Expected.{
  Descriptor, expect_configuration, expect_interface, expect_endpoint, expect, visit_all,
}
use cotton.UsbHost.Bus.Device.{SpecificConfiguration, specific_configuration}

-- What follows length and type in an endpoint descriptor: the highest bit of the address says IN, and
-- the low four bits are the number.
abbrev pub in_endpoint_body : ℕ → Bytes → Bool
in_endpoint_body n (address ∷ attributes ∷ size_low ∷ size_high ∷ interval ∷ []) =
    address / 128 % 2 == 1 && n == address % 16
in_endpoint_body n _ = false

-- The descriptor, of 7 bytes, is that of an IN endpoint with the number `n`.
abbrev pub is_in_endpoint : ℕ → Descriptor → Bool
is_in_endpoint n d = d.type_code == 5 && in_endpoint_body n d.body

-- What follows length and type in a configuration descriptor: the fourth byte is its value.
abbrev pub chosen_body : ℕ → Bool → Bytes → Bool
chosen_body value now
      (length_low ∷ length_high ∷ num_interfaces ∷ number ∷ name ∷ attributes ∷ power ∷ []) =
    number == value
chosen_body value now _ = now

-- Whether the descriptors that follow `d` belong to the configuration `value`; a configuration
-- descriptor that has not 9 bytes is passed over.
abbrev pub is_chosen_after : ℕ → Bool → Descriptor → Bool
is_chosen_after value now d = if d.type_code == 2 then chosen_body value now d.body else now

-- An IN endpoint `n` stands in the configuration `value`, of which `now` says whether it is being read.
abbrev pub has_in_endpoint : ℕ → Bool → ℕ → List Descriptor → Bool
has_in_endpoint value now n [] = false
has_in_endpoint value now n (d ∷ ds) =
    now && is_in_endpoint n d || has_in_endpoint value (is_chosen_after value now d) n ds

if_or : (a b : Bool) (x y : ℕ) → (if b then x else (if a then x else y)) ≡ (if a || b then x else y)
if_or true true x y = refl
if_or true false x y = refl
if_or false true x y = refl
if_or false false x y = refl

bit-added : (n k a : ℕ) → bit n (bit_or a (2 ^ k)) ≡ (if n == k then 1 else bit n a)
bit-added n k a = ground (arith, bit-bit_or n a (2 ^ k), bit-two_pow n k, bit-lt-two n a)

-- One descriptor: what the visitor makes of it.
record Stepped (n : ℕ) (d : Descriptor) (s s' : SpecificConfiguration) : Type 0 where
  value : s'.configuration_value ≡ s.configuration_value
  now : s'.ok_now ≡ is_chosen_after s.configuration_value s.ok_now d
  bits :
      bit n s'.in_endpoints ≡ (if s.ok_now && is_in_endpoint n d then 1 else bit n s.in_endpoints)

module _ (n : ℕ) (s : SpecificConfiguration) where
  abbrev of_type : ℕ → Bytes → Descriptor
  of_type type_code body = record { type_code = type_code; body = body }

  unchanged :
      (d : Descriptor)
      → is_chosen_after s.configuration_value s.ok_now d ≡ s.ok_now
      → is_in_endpoint n d ≡ false
      → Stepped n d s s
  unchanged d c e = record {
    value = refl;
    now = sym c;
    bits = rw e (elim (Bool-cases s.ok_now) [ inl q ↦ rw q refl | inr q ↦ rw q refl ]);
  }

  configuration-Stepped :
      (body : Bytes)
      → Stepped n (of_type 2 body) s (expect_configuration specific_configuration body s)
  unfolding specific_configuration
  configuration-Stepped [] = unchanged _ refl refl
  configuration-Stepped (a ∷ []) = unchanged _ refl refl
  configuration-Stepped (a ∷ b ∷ []) = unchanged _ refl refl
  configuration-Stepped (a ∷ b ∷ c ∷ []) = unchanged _ refl refl
  configuration-Stepped (a ∷ b ∷ c ∷ d ∷ []) = unchanged _ refl refl
  configuration-Stepped (a ∷ b ∷ c ∷ d ∷ e ∷ []) = unchanged _ refl refl
  configuration-Stepped (a ∷ b ∷ c ∷ d ∷ e ∷ f ∷ []) = unchanged _ refl refl
  configuration-Stepped (a ∷ b ∷ c ∷ d ∷ e ∷ f ∷ g ∷ []) = record {
    value = refl;
    now = refl;
    bits = elim (Bool-cases s.ok_now) [ inl q ↦ rw q refl | inr q ↦ rw q refl ];
  }
  configuration-Stepped (a ∷ b ∷ c ∷ d ∷ e ∷ f ∷ g ∷ more ∷ rest) = unchanged _ refl refl

  interface_same : (body : Bytes) → expect_interface specific_configuration body s ≡ s
  unfolding specific_configuration
  interface_same [] = refl
  interface_same (a ∷ []) = refl
  interface_same (a ∷ b ∷ []) = refl
  interface_same (a ∷ b ∷ c ∷ []) = refl
  interface_same (a ∷ b ∷ c ∷ d ∷ []) = refl
  interface_same (a ∷ b ∷ c ∷ d ∷ e ∷ []) = refl
  interface_same (a ∷ b ∷ c ∷ d ∷ e ∷ f ∷ []) = refl
  interface_same (a ∷ b ∷ c ∷ d ∷ e ∷ f ∷ g ∷ []) = refl
  interface_same (a ∷ b ∷ c ∷ d ∷ e ∷ f ∷ g ∷ more ∷ rest) = refl

  -- An endpoint descriptor of 7 bytes.
  endpoint_found :
      (address attributes size_low size_high interval : ℕ)
      → Stepped n (of_type 5 (address ∷ attributes ∷ size_low ∷ size_high ∷ interval ∷ [])) s (
          expect_endpoint specific_configuration
            (address ∷ attributes ∷ size_low ∷ size_high ∷ interval ∷ [])
            s)
  unfolding specific_configuration
  endpoint_found a b c d e = elim (Bool-cases s.ok_now) [
    | inl on ↦ elim (Bool-cases (a / 128 % 2 == 1)) [
      | inl i ↦
          let inward : (bit_and a 0x80 == 0x80) ≡ true = ground (arith, bit_and_highest a) in
          record {
            value = rw (on, inward) refl;
            now = rw (on, inward) refl;
            bits = rw (on, inward, i, bit_and_fifteen a) (bit-added n (a % 16) s.in_endpoints);
          }
      | inr i ↦
          let inward : (bit_and a 0x80 == 0x80) ≡ false = ground (arith, bit_and_highest a) in
          record {
            value = rw (on, inward) refl;
            now = rw (on, inward) refl;
            bits = rw (on, inward, i) refl;
          }
    ]
    | inr off ↦ record { value = rw off refl; now = rw off refl; bits = rw off refl }
  ]

  endpoint-Stepped :
      (body : Bytes) → Stepped n (of_type 5 body) s (expect_endpoint specific_configuration body s)
  endpoint-Stepped [] = unchanged _ refl refl
  endpoint-Stepped (a ∷ []) = unchanged _ refl refl
  endpoint-Stepped (a ∷ b ∷ []) = unchanged _ refl refl
  endpoint-Stepped (a ∷ b ∷ c ∷ []) = unchanged _ refl refl
  endpoint-Stepped (a ∷ b ∷ c ∷ d ∷ []) = unchanged _ refl refl
  endpoint-Stepped (a ∷ b ∷ c ∷ d ∷ e ∷ []) = endpoint_found a b c d e
  endpoint-Stepped (a ∷ b ∷ c ∷ d ∷ e ∷ more ∷ rest) = unchanged _ refl refl

  other-Stepped :
      (d : Descriptor) → (d.type_code == 2) ≡ false → (d.type_code == 5) ≡ false → Stepped n d s s
  other-Stepped d not_2 not_5 = unchanged d (rw not_2 refl) (rw not_5 refl)

  expect-Stepped :
      (d : Descriptor) → Stepped n d s (expect specific_configuration d.type_code d.body s)
  unfolding specific_configuration
  expect-Stepped d = elim (Bool-cases (d.type_code == 2)) [
    | inl q ↦
        let e : d.type_code ≡ 2 = ground arith in
        rw q (
          subst
            (λ t.
              Stepped n (of_type t d.body) s (expect_configuration specific_configuration d.body s))
            (sym e) (configuration-Stepped d.body))
    | inr not_2 ↦ elim (Bool-cases (d.type_code == 4)) [
      | inl q ↦ rw (not_2, q, interface_same d.body) (other-Stepped d not_2 (ground arith))
      | inr not_4 ↦ elim (Bool-cases (d.type_code == 5)) [
        | inl q ↦
            let e : d.type_code ≡ 5 = ground arith in
            rw (not_2, not_4, q)
              (subst
                (λ t.
                  Stepped n (of_type t d.body) s (expect_endpoint specific_configuration d.body s))
                (sym e) (endpoint-Stepped d.body))
        | inr not_5 ↦ rw (not_2, not_4, not_5) (other-Stepped d not_2 not_5)
      ]
    ]
  ]

-- After any sequence of descriptors the visitor for a configuration has the bit of an IN endpoint set
-- exactly if it was set before, or such an endpoint stands behind a configuration descriptor with the
-- wanted value, before one with another value.
pub bit-visit_all :
    (n : ℕ) (ds : List Descriptor) (s : SpecificConfiguration)
    → bit n (visit_all specific_configuration ds s).in_endpoints
      ≡ (if has_in_endpoint s.configuration_value s.ok_now n ds then 1 else bit n s.in_endpoints)
bit-visit_all n [] s = refl
bit-visit_all n (d ∷ ds) s =
    let t = expect-Stepped n s d in
    bit-visit_all n ds (expect specific_configuration d.type_code d.body s)
    ∙ rw (t.value, t.now, t.bits)
        (if_or (s.ok_now && is_in_endpoint n d)
          (has_in_endpoint s.configuration_value (is_chosen_after s.configuration_value s.ok_now d)
            n ds)
          1 (bit n s.in_endpoints))
